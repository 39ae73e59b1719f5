-- ===== src/Net/Kept.antt =====
-- The operations on connections leave the program alone.
use integer_java_virtual_mac.Base.{ℕ, Option, none, some}
use integer_java_virtual_mac.Machine.{Vm, Sock}
use integer_java_virtual_mac.Machine.Stays.{Stays, fixed, stays_rules, alloc-Stays, system-Stays}
use integer_java_virtual_mac.Claim.Kept.{
  net_conn-IsBeside, marr_add_element-Stays, marr_resize-Stays, marr_init-Stays,
  marr_get_element-Stays, marr_remove_element-Stays,
}
use integer_java_virtual_mac.Net.{
  net_check_ref, store_sock, socket_store, socket_create, deref_sock, get_sock, put_sock, serve,
  net_bind, net_connect, data_fd, net_recv, net_send, shut, net_close,
}

ruleset slot_rules = (
  stays_rules, net_conn-IsBeside, marr_add_element-Stays, marr_resize-Stays, marr_init-Stays,
  marr_get_element-Stays, marr_remove_element-Stays,
)

net_check_ref-Stays : (r : ℕ) (s : Vm) → Stays (fixed s) (net_check_ref r s)
unfolding net_check_ref
net_check_ref-Stays r s = search stays_rules

store_sock-Stays : (k : Sock) (s : Vm) → Stays (fixed s) (store_sock k s)
unfolding store_sock
store_sock-Stays k s = search slot_rules depth 20

socket_store-Stays : (k : Sock) (s : Vm) → Stays (fixed s) (socket_store k s)
unfolding socket_store
socket_store-Stays k s = search (slot_rules, store_sock-Stays, net_check_ref-Stays) depth 20

socket_create-Stays : (host port : ℕ) (s : Vm) → Stays (fixed s) (socket_create host port s)
unfolding socket_create
socket_create-Stays host port s =
    search (stays_rules, alloc-Stays, system-Stays, socket_store-Stays) depth 20

deref_sock-Stays : (o : Option Sock) (s : Vm) → Stays (fixed s) (deref_sock o s)
unfolding deref_sock
deref_sock-Stays none s = search stays_rules
deref_sock-Stays (some k) s = search stays_rules

get_sock-Stays : (i : ℕ) (s : Vm) → Stays (fixed s) (get_sock i s)
unfolding get_sock
get_sock-Stays i s = search (slot_rules, deref_sock-Stays)

put_sock-Stays : (i : ℕ) (k : Sock) (s : Vm) → Stays (fixed s) (put_sock i k s)
unfolding put_sock
put_sock-Stays i k s = search stays_rules

serve-Stays : (r : ℕ) (k : Sock) (s : Vm) → Stays (fixed s) (serve r k s)
unfolding serve
serve-Stays r k s = search (stays_rules, system-Stays, put_sock-Stays) depth 20

pub net_bind-Stays : (port : ℕ) (s : Vm) → Stays (fixed s) (net_bind port s)
unfolding net_bind
net_bind-Stays port s =
    search (stays_rules, socket_create-Stays, get_sock-Stays, serve-Stays) depth 20

pub net_connect-Stays : (host port : ℕ) (s : Vm) → Stays (fixed s) (net_connect host port s)
unfolding net_connect
net_connect-Stays host port s =
    search (stays_rules, socket_create-Stays, get_sock-Stays, system-Stays, put_sock-Stays) depth 20

data_fd-Stays : (k : Sock) (s : Vm) → Stays (fixed s) (data_fd k s)
unfolding data_fd
data_fd-Stays k s = search stays_rules

pub net_recv-Stays : (r : ℕ) (s : Vm) → Stays (fixed s) (net_recv r s)
unfolding net_recv
net_recv-Stays r s =
    search (stays_rules, net_check_ref-Stays, get_sock-Stays, data_fd-Stays, system-Stays) depth 20

pub net_send-Stays : (r word : ℕ) (s : Vm) → Stays (fixed s) (net_send r word s)
unfolding net_send
net_send-Stays r word s =
    search (stays_rules, net_check_ref-Stays, get_sock-Stays, data_fd-Stays, system-Stays) depth 20

shut-Stays : (fd : ℕ) (s : Vm) → Stays (fixed s) (shut fd s)
unfolding shut
shut-Stays fd s = search (stays_rules, system-Stays)

pub net_close-Stays : (r : ℕ) (s : Vm) → Stays (fixed s) (net_close r s)
unfolding net_close
net_close-Stays r s = search (slot_rules, net_check_ref-Stays, get_sock-Stays, shut-Stays) depth 20
