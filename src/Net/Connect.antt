-- ===== src/Net/Connect.antt =====
-- `net_connect` and `net_bind` of src/net.c.
use mathlib.Core.Path.{fun_ext}
use native.Mathlib.Decide.{dec_lt}
use integer_java_virtual_mac.Base.{
  ℕ, ◌+◌, ◌%◌, ◌≤◌, ◌<◌, ◌≡◌, refl, true, false, some, [], ◌∷◌, ◌==◌, inl, inr, Bool-cases,
  if◌then◌else◌, lt→leb, ne→==, arith,
}
use integer_java_virtual_mac.Base.Word.{minus_one}
use integer_java_virtual_mac.Refs.{net_tag, index_to_ref}
use integer_java_virtual_mac.Refs.Digits.{ref_to_index-index_to_ref}
use integer_java_virtual_mac.Machine.{
  Vm, Sock, Reply, Network, socket, bind, connect, listen, accept, ok, system, update,
  AllocSucceeds, alloc-AllocSucceeds,
}
use integer_java_virtual_mac.Marr.{net_conn, fill, marr_get_element}
use integer_java_virtual_mac.Claim.{marr_add_element}
use integer_java_virtual_mac.Claim.Free.{IsLowest, IsField, marr_add_element-cases}
use integer_java_virtual_mac.Net.{
  net_check_ref, store_sock, socket_store, socket_create, get_sock, deref_sock, put_sock, serve,
  net_max_backlog, net_bind, net_connect,
}
use integer_java_virtual_mac.Net.Destroy.{logged}
use integer_java_virtual_mac.Net.Data.{reply}

-- Slot `f` is the lowest free one for a connection, and no collection is due.
pub record HasRoom (s : Vm) (f : ℕ) : Type 0 where
  pub lowest : IsLowest s.net_conn.map s.net_conn.size 0 f
  pub small : s.net_conn.size ≤ 0x10_0000
  pub few : s.element_creations < 100
  pub allocates : AllocSucceeds s

-- A socket that the operating system has answered with `fd`.
abbrev pub fresh : ℕ → ℕ → ℕ → Sock
fresh fd host port = record {
  fd = fd;
  fds = minus_one;
  client = false;
  server = false;
  addr = record { host = host; port = port };
}

abbrev pub net_conn-IsField : IsField net_conn
net_conn-IsField = record { get_put = λ m s. refl; get_creations = λ n s. refl }

module _ (s : Vm) (f : ℕ) where
  -- The machine with `k` in slot `f`, after the calls `cs`.
  abbrev pub holding : Sock → Network → Vm
  holding k n = record s {
    net_conn = fill s.net_conn f k;
    element_creations = s.element_creations + 1;
    network = n;
  }

  -- The answers to the calls of `bind`, `listen` and `accept`.
  abbrev pub to_bind : Reply
  to_bind = s.network.replies (s.network.given + 1)

  abbrev pub to_listen : Reply
  to_listen = s.network.replies (s.network.given + 1 + 1)

  abbrev pub to_accept : Reply
  to_accept = s.network.replies (s.network.given + 1 + 1 + 1)

  -- What `net_bind` leaves, by the first of its calls that fails.
  abbrev pub bound : ℕ → ℕ × Vm
  bound port =
      let fd = (reply s).status in
      let k = fresh fd 0 (port % 0x10000) in
      if to_bind.status == minus_one
      then (0, holding k (logged s.network (socket ∷ bind fd k.addr ∷ [])))
      else if to_listen.status == minus_one
      then (
        0,
        holding k (logged s.network (socket ∷ bind fd k.addr ∷ listen fd net_max_backlog ∷ [])),
      )
      else (
        if to_accept.status == minus_one then 0 else index_to_ref net_tag f,
        holding
            (if to_accept.status == minus_one
              then record k { fds = to_accept.status }
              else record k { fds = to_accept.status; addr = to_accept.peer; server = true })
            (logged s.network
              (socket ∷ bind fd k.addr ∷ listen fd net_max_backlog ∷ accept fd ∷ [])),
      )

module _ (s : Vm) (f : ℕ) (h : HasRoom s f) where
  -- The lowest free slot is the one.
  only_lowest : (g : ℕ) → IsLowest s.net_conn.map s.net_conn.size 0 g → g ≡ f
  only_lowest g k = elim (dec_lt g f) [
    | yes below ↦ absurd (ground (arith, h.lowest.lowest g, k.free))
    | no not_below ↦ elim (dec_lt f g) [
      | yes above ↦ absurd (ground (arith, k.lowest f, h.lowest.free))
      | no not_above ↦ omega arith
    ]
  ]

  added :
      (k : Sock)
      → let t = record s { network = logged s.network (socket ∷ []) } in
        marr_add_element net_conn k t ≡ ok f (holding s f k (logged s.network (socket ∷ [])))
  added k =
      let t = record s { network = logged s.network (socket ∷ []) } in
      elim (marr_add_element-cases net_conn net_conn-IsField t k h.few (omega (arith, h.small))) [
        | inl (full, e) ↦ absurd (ground (arith, full f, h.lowest.inside, h.lowest.free))
        | inr (g, lowest, e) ↦ let same : g ≡ f = only_lowest g lowest in rw (← same) e
      ]

  socket_create-ok :
      (host port : ℕ)
      → let k = fresh (reply s).status host port in
        socket_create host port s
        ≡ ok (index_to_ref net_tag f) (holding s f k (logged s.network (socket ∷ [])))
  unfolding socket_create socket_store store_sock net_check_ref system
  socket_create-ok host port =
      let k = fresh (reply s).status host port in
      let t = record s { network = logged s.network (socket ∷ []) } in
      let (back, format, word) =
        ref_to_index-index_to_ref 0xcc 0xc (omega arith) (omega arith) f
          (omega (arith, h.small, h.lowest.inside)) in
      let some_slots : (s.net_conn.size == 0) ≡ false = ground (arith, h.lowest.inside) in
      let proper : (f == minus_one) ≡ false =
        ne→== f minus_one (omega (arith, h.small, h.lowest.inside)) in
      rw (alloc-AllocSucceeds s h.allocates, some_slots, added k, proper, format) refl

  -- A second object in the slot, in place of the first.
  refill :
      (k k' : Sock)
      → update (fill s.net_conn f k).values f (some k') ≡ (fill s.net_conn f k').values
  refill k k' =
      fun_ext
        λ j. elim (Bool-cases (j == f)) [ inl same ↦ rw same refl | inr other ↦ rw other refl ]

  -- Where there are at most 2 ^ 20 slots and one of them is free, no collection is due and no
  -- allocation fails, `net_connect` asks the operating system for a socket and then to connect it
  -- to the host and to the low 16 bits of the port, and makes no other call. If the second call
  -- succeeds the result is the reference to the lowest free slot, which holds the connection of a
  -- client; if not the result is 0, and that slot is in use all the same. Nothing else changes but
  -- the count of searches.
  pub net_connect_lem :
      (host port : ℕ)
      → let fd = (reply s).status in
        let failed = (s.network.replies (s.network.given + 1)).status == minus_one in
        let k = fresh fd host (port % 0x10000) in
        net_connect host port s
        ≡ ok (if failed then 0 else index_to_ref net_tag f) (
            holding s f
              (if failed then k else record k { client = true })
              (logged s.network (socket ∷ connect fd k.addr ∷ [])))
  unfolding net_connect get_sock deref_sock put_sock marr_get_element system
  net_connect_lem host port =
      let fd = (reply s).status in
      let k = fresh fd host (port % 0x10000) in
      let (back, format, word) =
        ref_to_index-index_to_ref 0xcc 0xc (omega arith) (omega arith) f
          (omega (arith, h.small, h.lowest.inside)) in
      let inside = lt→leb s.net_conn.size f (omega (arith, h.lowest.inside)) in
      let here : (f == f) ≡ true = ground arith in
      elim (Bool-cases ((s.network.replies (s.network.given + 1)).status == minus_one)) [
        | inl failed ↦ rw (socket_create-ok host (port % 0x10000), back, inside, here, failed) refl
        | inr connected ↦
            rw
              (
                socket_create-ok host (port % 0x10000),
                back,
                inside,
                here,
                connected,
                refill k (record k { client = true }),
              )
              refl
      ]

  -- Where there are at most 2 ^ 20 slots and one of them is free, no collection is due and no
  -- allocation fails, `net_bind` asks the operating system for a socket, to bind it to the low 16
  -- bits of the port on any host, to listen for one connection and to accept one, and makes no call
  -- after the first that fails, but that a failure to give a socket is not looked at. If none fails
  -- the result is the reference to the lowest free slot, which holds the connection of a server
  -- with the peer and the socket that were accepted; if one does the result is 0, and that slot is
  -- in use all the same. Nothing else changes but the count of searches.
  pub net_bind_lem : (port : ℕ) → net_bind port s ≡ ok (bound s f port).0 (bound s f port).1
  unfolding net_bind get_sock deref_sock serve put_sock marr_get_element system
  net_bind_lem port =
      let k = fresh (reply s).status 0 (port % 0x10000) in
      let (back, format, word) =
        ref_to_index-index_to_ref 0xcc 0xc (omega arith) (omega arith) f
          (omega (arith, h.small, h.lowest.inside)) in
      let inside = lt→leb s.net_conn.size f (omega (arith, h.lowest.inside)) in
      let here : (f == f) ≡ true = ground arith in
      elim (Bool-cases ((to_bind s f).status == minus_one)) [
        | inl e ↦ rw (socket_create-ok 0 (port % 0x10000), back, inside, here, e) refl
        | inr bound_to ↦ elim (Bool-cases ((to_listen s f).status == minus_one)) [
          | inl e ↦ rw (socket_create-ok 0 (port % 0x10000), back, inside, here, bound_to, e) refl
          | inr listens ↦ elim (Bool-cases ((to_accept s f).status == minus_one)) [
            | inl e ↦
                rw
                  (
                    socket_create-ok 0 (port % 0x10000),
                    back,
                    inside,
                    here,
                    bound_to,
                    listens,
                    e,
                    refill k (record k { fds = (to_accept s f).status }),
                  )
                  refl
            | inr accepted ↦
                rw
                  (
                    socket_create-ok 0 (port % 0x10000),
                    back,
                    inside,
                    here,
                    bound_to,
                    listens,
                    accepted,
                    refill k (record k {
                      fds = (to_accept s f).status;
                      addr = (to_accept s f).peer;
                      server = true;
                    }),
                  )
                  refl
          ]
        ]
      ]
