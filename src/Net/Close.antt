-- ===== src/Net/Close.antt =====
-- `net_close` of src/net.c.
use integer_java_virtual_mac.Base.{ℕ, ◌+◌, ◌<◌, ◌≡◌, true, not, some, [], ◌∷◌, ◌++◌, arith}
use integer_java_virtual_mac.Refs.{net_tag, ref_to_index, is_ref}
use integer_java_virtual_mac.Machine.{Vm, Sock, shutdown, close, ok, system}
use integer_java_virtual_mac.Marr.{marr_get_element, marr_remove_element, clear}
use integer_java_virtual_mac.Net.{net_check_ref, get_sock, deref_sock, shut, net_close}

-- A reference `r` to the connection `k`, which is that of a client or that of a server.
pub record Connects (s : Vm) (r : ℕ) (k : Sock) : Type 0 where
  pub format : is_ref net_tag r ≡ true
  pub in_range : ref_to_index r < s.net_conn.size
  pub in_use : s.net_conn.map (ref_to_index r) ≡ true
  pub held : s.net_conn.values (ref_to_index r) ≡ some k
  pub one_side : k.server ≡ not k.client

-- The slot is free, and the socket was shut down and closed.
abbrev pub closed : Vm → ℕ → Sock → Vm
closed s r k =
    let n = s.network in
    record s {
      net_conn = clear s.net_conn (ref_to_index r);
      network = record n {
        given = n.given + 1 + 1;
        calls = (n.calls ++ shutdown k.fd ∷ []) ++ close k.fd ∷ [];
      };
    }

-- Closing a connection that a reference stands for, a client's or a server's and not both,
-- returns: the slot becomes free, the calls to the operating system are one to shut down `fd` and
-- one to close it, for a server too, and nothing else changes.
pub net_close_lem :
    (s : Vm) (r : ℕ) (k : Sock) → Connects s r k → net_close r s ≡ ok tt (closed s r k)
unfolding net_close net_check_ref get_sock deref_sock shut system marr_get_element
    marr_remove_element
net_close_lem s r k c = ground (arith, c.format, c.in_range, c.in_use, c.held, c.one_side)
