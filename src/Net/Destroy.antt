-- ===== src/Net/Destroy.antt =====
-- `net_destroy` of src/net.c.
use integer_java_virtual_mac.Base.{
  ℕ, zero, suc, ◌+◌, ◌≤◌, ◌<◌, ◌≡◌, refl, true, false, some, none, Option, List, [], ◌∷◌, ◌++◌, inl,
  inr, Bool-cases, lt→leb, ◌==◌, ne→==, if◌then◌else◌, arith,
}
use integer_java_virtual_mac.Refs.{net_tag, index_to_ref}
use integer_java_virtual_mac.Refs.Digits.{ref_to_index-index_to_ref}
use integer_java_virtual_mac.Machine.{Vm, MArr, Sock, Call, Network, shutdown, close, ok, system}
use integer_java_virtual_mac.Marr.{
  no_slots, clear, marr_check_marked, marr_get_element, marr_remove_element, marr_destroy,
}
use integer_java_virtual_mac.Marr.Slots.{Holds, IsAny, Holds-clear}
use integer_java_virtual_mac.Net.{
  net_check_ref, get_sock, deref_sock, shut, net_close, close_slots, net_destroy,
}

-- The network after the calls `cs`, in that order.
abbrev pub logged : Network → List Call → Network
logged n [] = n
logged n (c ∷ cs) = logged (record n { given = n.given + 1; calls = n.calls ++ c ∷ [] }) cs

logged-++ : (cs ds : List Call) (n : Network) → logged n (cs ++ ds) ≡ logged (logged n cs) ds
logged-++ [] ds n = refl
logged-++ (c ∷ cs) ds n = logged-++ cs ds _

-- The calls that end a connection: two for a client, two for a server.
abbrev pub ending : Sock → List Call
ending k =
    (if k.client then shutdown k.fd ∷ close k.fd ∷ [] else [])
    ++ (if k.server then shutdown k.fd ∷ close k.fd ∷ [] else [])

abbrev pub ending_in : Option Sock → List Call
ending_in none = []
ending_in (some k) = ending k

-- Those for the slots in use among the `n` slots from `i` on.
abbrev pub ending_all : MArr Sock → ℕ → ℕ → List Call
ending_all m zero i = []
ending_all m (suc n) i = (if m.map i then ending_in (m.values i) else []) ++ ending_all m n (i + 1)

-- A slot that the loop has passed does not matter.
ending_all-clear :
    (m : MArr Sock) (n i j : ℕ) → j < i → ending_all (clear m j) n i ≡ ending_all m n i
ending_all-clear m zero i j lt = refl
ending_all-clear m (suc n) i j lt =
    let other : (i == j) ≡ false = ne→== i j (omega arith) in
    rw (other, ending_all-clear m n (i + 1) j (omega arith)) refl

abbrev ended : Vm → ℕ → List Call → Vm
ended s i cs = record s { net_conn = clear s.net_conn i; network = logged s.network cs }

net_close-ended :
    (s : Vm) (i : ℕ) (k : Sock)
    → i < s.net_conn.size
    → i < 0x10_0000
    → s.net_conn.map i ≡ true
    → s.net_conn.values i ≡ some k
    → net_close (index_to_ref net_tag i) s ≡ ok tt (ended s i (ending k))
unfolding net_close net_check_ref get_sock deref_sock shut system marr_get_element
    marr_remove_element
net_close-ended s i k lt small used held =
    let (back, format, word) =
      ref_to_index-index_to_ref 0xcc 0xc (omega arith) (omega arith) i small in
    elim (Bool-cases k.client) [
      | inl c ↦ elim (Bool-cases k.server) [
        | inl both ↦ ground (arith, format, back)
        | inr client ↦ ground (arith, format, back)
      ]
      | inr c ↦ elim (Bool-cases k.server) [
        | inl server ↦ ground (arith, format, back)
        | inr neither ↦ ground (arith, format, back)
      ]
    ]

-- The loop ends every connection in use among its slots.
close_slots-ends :
    (s : Vm) (n i : ℕ)
    → i + n ≤ s.net_conn.size
    → s.net_conn.size ≤ 0x10_0000
    → Holds IsAny s.net_conn
    → (u : MArr Sock) × (close_slots n i s
        ≡ ok tt (record s { net_conn = u; network = logged s.network (ending_all s.net_conn n i) }))
unfolding close_slots marr_check_marked
close_slots-ends s zero i fits small h = (s.net_conn, refl)
close_slots-ends s (suc n) i fits small h =
    let inside = lt→leb s.net_conn.size i (omega arith) in
    elim (Bool-cases (s.net_conn.map i)) [
      | inr free ↦
          let (u, e) = close_slots-ends s n (i + 1) (omega arith) small h in
          (u, rw (inside, free) e)
      | inl used ↦
          let (lt, k, held, _) = h i used in
          let t = ended s i (ending k) in
          let (u, e) =
            close_slots-ends t n (i + 1) (omega arith) small (Holds-clear s.net_conn i h) in
          (
            u,
            rw
                (
                  inside,
                  used,
                  held,
                  net_close-ended s i k lt (omega arith) used held,
                  logged-++ (ending k) (ending_all s.net_conn n (i + 1)) s.network,
                )
                (rw (e, ending_all-clear s.net_conn n (i + 1) i (omega arith)) refl),
          )
    ]

pub net_destroy-ok :
    (s : Vm)
    → s.net_conn.size ≤ 0x10_0000
    → Holds IsAny s.net_conn
    → net_destroy s
      ≡ ok tt (record s {
        net_conn = no_slots;
        network = logged s.network (ending_all s.net_conn s.net_conn.size 0);
      })
unfolding net_destroy marr_destroy
net_destroy-ok s small h =
    let (u, e) = close_slots-ends s s.net_conn.size 0 (omega arith) small h in rw e refl
