-- ===== src/Net.antt =====
-- The connections of src/net.c. A system call takes the next answer of the operating system. Hosts
-- and ports are kept in the byte order of the host, so `htons` and `htonl` leave them as they are.
-- A `char` is signed, as it is on the machines that the program is built for.
pub mod Close
pub mod Destroy
pub mod Data
pub mod Connect
pub mod Kept
pub mod Sound
pub mod Words
use integer_java_virtual_mac.Base.{
  ℕ, zero, suc, ◌+◌, ◌%◌, Bool, true, false, not, ◌&&◌, Option, none, some, ◌==◌, if◌then◌else◌,
}
use integer_java_virtual_mac.Base.Word.{minus_one, wrap, sext8}
use integer_java_virtual_mac.Refs.{net_tag, ref_to_index, index_to_ref, is_ref}
use integer_java_virtual_mac.Machine.{
  Sock, socket, bind, connect, listen, accept, recv, shutdown, close, send, bad_net_reference,
  bad_socket_state, bad_received, bad_sent, fault, ok, exit, M, pure, ◌>>=◌, ◌>>◌, stop_if, update,
  alloc, system,
}
use integer_java_virtual_mac.Marr.{
  net_conn, marr_check_marked, marr_get_element, marr_remove_element, marr_destroy,
}
use integer_java_virtual_mac.Claim.{marr_add_element, marr_resize, marr_init}

-- `NET_CONN_MIN_NUM` and `NET_MAX_BACKLOG` of include/config.h
abbrev pub net_conn_min_num : ℕ
net_conn_min_num = 16

abbrev pub net_max_backlog : ℕ
net_max_backlog = 1

unfoldable pub net_check_ref : ℕ → M (Unit {0})
net_check_ref r = stop_if (not (is_ref net_tag r)) bad_net_reference

unfoldable pub store_sock : Sock → M ℕ
store_sock sock = do
  i ← marr_add_element net_conn sock
  if i == minus_one
      then (do
        (λ s. marr_resize net_conn (wrap (s.net_conn.size + 16)) s)
        marr_add_element net_conn sock)
      else pure i

unfoldable pub socket_store : Sock → M ℕ
socket_store sock = do
  (λ s. if s.net_conn.size == 0 then marr_init net_conn net_conn_min_num s else ok tt s)
  i ← store_sock sock
  net_check_ref (index_to_ref net_tag i)
  pure (index_to_ref net_tag i)

-- A use of what `malloc` returned, NULL if it failed.
abbrev not_null : Bool → M (Unit {0})
not_null enough s = if enough then ok tt s else fault

unfoldable pub socket_create : ℕ → ℕ → M ℕ
socket_create host port = do
  enough ← alloc
  not_null enough
  r ← system socket
  socket_store (record {
    fd = r.status;
    fds = minus_one;
    client = false;
    server = false;
    addr = record { host = host; port = port };
  })

unfoldable pub deref_sock : Option Sock → M Sock
deref_sock none s = fault
deref_sock (some k) s = ok k s

unfoldable pub get_sock : ℕ → M Sock
get_sock i = do p ← marr_get_element net_conn i; deref_sock p

-- A write through the pointer that a slot holds.
unfoldable pub put_sock : ℕ → Sock → M (Unit {0})
put_sock i k s =
    ok tt
      (record s { net_conn = record (s.net_conn) { values = update s.net_conn.values i (some k) } })

-- `net_bind` after the socket is there: it waits for one connection.
unfoldable pub serve : ℕ → Sock → M ℕ
serve net_ref k = do
  bound ← system (bind k.fd k.addr)
  if bound.status == minus_one then pure 0 else (do
    listening ← system (listen k.fd net_max_backlog)
    if listening.status == minus_one then pure 0 else (do
      peer ← system (accept k.fd)
      let failed = peer.status == minus_one
      put_sock (ref_to_index net_ref) (record k {
        fds = peer.status;
        addr = if failed then k.addr else peer.peer;
        server = if failed then k.server else true;
      })
      pure (if failed then 0 else net_ref)))

unfoldable pub net_bind : ℕ → M ℕ
net_bind port = do
  net_ref ← socket_create 0 (port % 0x10000)
  k ← get_sock (ref_to_index net_ref)
  serve net_ref k

unfoldable pub net_connect : ℕ → ℕ → M ℕ
net_connect host port = do
  net_ref ← socket_create host (port % 0x10000)
  k ← get_sock (ref_to_index net_ref)
  r ← system (connect k.fd k.addr)
  if r.status == minus_one
      then pure 0
      else (do put_sock (ref_to_index net_ref) (record k { client = true }); pure net_ref)

-- The descriptor that data goes through.
unfoldable pub data_fd : Sock → M ℕ
data_fd k =
    if k.client && not k.server
    then pure k.fd
    else if not k.client && k.server
    then pure k.fds
    else exit bad_socket_state

unfoldable pub net_recv : ℕ → M ℕ
net_recv net_ref = do
  net_check_ref net_ref
  k ← get_sock (ref_to_index net_ref)
  fd ← data_fd k
  r ← system (recv fd)
  stop_if (not (r.status == 1)) bad_received
  pure (sext8 r.byte)

unfoldable pub net_send : ℕ → ℕ → M (Unit {0})
net_send net_ref word = do
  net_check_ref net_ref
  k ← get_sock (ref_to_index net_ref)
  fd ← data_fd k
  r ← system (send fd word)
  stop_if (not (r.status == 4)) bad_sent

unfoldable pub shut : ℕ → M (Unit {0})
shut fd = do system (shutdown fd); system (close fd); pure tt

-- A server's socket is closed, and its connection `fds` is not.
unfoldable pub net_close : ℕ → M (Unit {0})
net_close net_ref = do
  net_check_ref net_ref
  k ← get_sock (ref_to_index net_ref)
  (if k.client then shut k.fd else pure tt)
  (if k.server then shut k.fd else pure tt)
  marr_get_element net_conn (ref_to_index net_ref)
  marr_remove_element net_conn (ref_to_index net_ref)

unfoldable pub close_slots : ℕ → ℕ → M (Unit {0})
close_slots zero i = pure tt
close_slots (suc n) i = do
  claimed ← marr_check_marked net_conn i
  (if claimed then net_close (index_to_ref net_tag i) else pure tt)
  close_slots n (i + 1)

unfoldable pub net_destroy : M (Unit {0})
net_destroy = do (λ s. close_slots s.net_conn.size 0 s); marr_destroy net_conn
