-- ===== src/Net/Data.antt =====
-- `net_send` and `net_recv` of src/net.c.
use integer_java_virtual_mac.Base.{
  ℕ, ◌≡◌, refl, [], ◌∷◌, ◌==◌, inl, inr, Bool-cases, if◌then◌else◌, lt→leb, arith,
}
use integer_java_virtual_mac.Base.Word.{sext8}
use integer_java_virtual_mac.Refs.{ref_to_index}
use integer_java_virtual_mac.Machine.{
  Vm, Sock, Reply, Call, recv, send, bad_received, bad_sent, ok, exit, system,
}
use integer_java_virtual_mac.Marr.{marr_get_element}
use integer_java_virtual_mac.Net.{net_check_ref, get_sock, deref_sock, data_fd, net_recv, net_send}
use integer_java_virtual_mac.Net.Close.{Connects}
use integer_java_virtual_mac.Net.Destroy.{logged}

-- The answer to the next call.
abbrev pub reply : Vm → Reply
reply s = s.network.replies s.network.given

-- Data goes through `fd` for a client, and through `fds` for a server.
abbrev pub line : Sock → ℕ
line k = if k.client then k.fd else k.fds

-- The machine after one more call.
abbrev pub after : Vm → Call → Vm
after s call = record s { network = logged s.network (call ∷ []) }

module _ (s : Vm) (r : ℕ) (k : Sock) (c : Connects s r k) where
  get_sock-ok : get_sock (ref_to_index r) s ≡ ok k s
  unfolding get_sock deref_sock marr_get_element
  get_sock-ok = rw (lt→leb s.net_conn.size (ref_to_index r) c.in_range, c.in_use, c.held) refl

  data_fd-ok : data_fd k s ≡ ok (line k) s
  unfolding data_fd
  data_fd-ok = ground (arith, c.one_side)

  -- By a reference to a connection, a client's or a server's, `net_send` makes one call, to send
  -- the word through the connection, and `net_recv` one, to receive a byte from it. Sending returns
  -- if the operating system took four bytes, and receiving gives the byte, as a signed number, if
  -- there was one; otherwise each gives up with its message. Nothing else changes.
  pub net_send-net_recv :
      (word : ℕ)
      → (net_send r word s ≡ (
          if (reply s).status == 4
          then ok tt (after s (send (line k) word))
          else exit bad_sent (after s (send (line k) word))))
        × (net_recv r s ≡ (
            if (reply s).status == 1
            then ok (sext8 (reply s).byte) (after s (recv (line k)))
            else exit bad_received (after s (recv (line k)))))
  unfolding net_send net_recv net_check_ref system
  net_send-net_recv word = (
    rw (c.format, get_sock-ok, data_fd-ok)
        (elim (Bool-cases ((reply s).status == 4)) [
          | inl sent ↦ rw sent refl
          | inr short ↦ rw short refl
        ]),
    rw (c.format, get_sock-ok, data_fd-ok)
        (elim (Bool-cases ((reply s).status == 1)) [
          | inl received ↦ rw received refl
          | inr nothing ↦ rw nothing refl
        ]),
  )
