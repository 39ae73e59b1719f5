-- ===== src/Net/Sound.antt =====
-- The operations on connections keep the invariant of the mapped arrays.
use integer_java_virtual_mac.Base.{ℕ, Option, none, some}
use integer_java_virtual_mac.Machine.{Vm, Sock}
use integer_java_virtual_mac.Marr.Sound.{
  Sound, sound, sound_rules, alloc-Sound, system-Sound, net_conn-IsSlots, marr_get_element-Sound,
  marr_remove_element-Sound,
}
use integer_java_virtual_mac.Marr.Slots.{HasObjects, Holds-write}
use integer_java_virtual_mac.Claim.Sound.{
  marr_add_element-Sound, marr_resize-Sound, marr_init-Sound,
}
use integer_java_virtual_mac.Net.{
  net_check_ref, store_sock, socket_store, socket_create, deref_sock, get_sock, put_sock, serve,
  net_bind, net_connect, data_fd, net_recv, net_send, shut, net_close,
}

ruleset slot_rules = (
  sound_rules, net_conn-IsSlots, marr_add_element-Sound, marr_resize-Sound, marr_init-Sound,
  marr_get_element-Sound, marr_remove_element-Sound,
)

net_check_ref-Sound : (r : ℕ) (s : Vm) → HasObjects s → Sound HasObjects (net_check_ref r s)
unfolding net_check_ref
net_check_ref-Sound r s h = search sound_rules

store_sock-Sound : (k : Sock) (s : Vm) → HasObjects s → Sound HasObjects (store_sock k s)
unfolding store_sock
store_sock-Sound k s h = search slot_rules depth 20

socket_store-Sound : (k : Sock) (s : Vm) → HasObjects s → Sound HasObjects (socket_store k s)
unfolding socket_store
socket_store-Sound k s h = search (slot_rules, store_sock-Sound, net_check_ref-Sound) depth 20

socket_create-Sound :
    (host port : ℕ) (s : Vm) → HasObjects s → Sound HasObjects (socket_create host port s)
unfolding socket_create
socket_create-Sound host port s h =
    search (sound_rules, alloc-Sound, system-Sound, socket_store-Sound) depth 20

deref_sock-Sound : (o : Option Sock) (s : Vm) → HasObjects s → Sound HasObjects (deref_sock o s)
unfolding deref_sock
deref_sock-Sound none s h = search sound_rules
deref_sock-Sound (some k) s h = search sound_rules

get_sock-Sound : (i : ℕ) (s : Vm) → HasObjects s → Sound HasObjects (get_sock i s)
unfolding get_sock
get_sock-Sound i s h = search (slot_rules, deref_sock-Sound)

put_sock-Sound : (i : ℕ) (k : Sock) (s : Vm) → HasObjects s → Sound HasObjects (put_sock i k s)
unfolding put_sock
put_sock-Sound i k s h = sound (record {
  arrays_hold = h.arrays_hold;
  socks_hold = Holds-write s.net_conn i k tt h.socks_hold;
  blocks = h.blocks;
})

serve-Sound : (r : ℕ) (k : Sock) (s : Vm) → HasObjects s → Sound HasObjects (serve r k s)
unfolding serve
serve-Sound r k s h = search (sound_rules, system-Sound, put_sock-Sound) depth 20

pub net_bind-Sound : (port : ℕ) (s : Vm) → HasObjects s → Sound HasObjects (net_bind port s)
unfolding net_bind
net_bind-Sound port s h =
    search (sound_rules, socket_create-Sound, get_sock-Sound, serve-Sound) depth 20

pub net_connect-Sound :
    (host port : ℕ) (s : Vm) → HasObjects s → Sound HasObjects (net_connect host port s)
unfolding net_connect
net_connect-Sound host port s h =
    search (sound_rules, socket_create-Sound, get_sock-Sound, system-Sound, put_sock-Sound) depth 20

data_fd-Sound : (k : Sock) (s : Vm) → HasObjects s → Sound HasObjects (data_fd k s)
unfolding data_fd
data_fd-Sound k s h = search sound_rules

pub net_recv-Sound : (r : ℕ) (s : Vm) → HasObjects s → Sound HasObjects (net_recv r s)
unfolding net_recv
net_recv-Sound r s h =
    search (sound_rules, net_check_ref-Sound, get_sock-Sound, data_fd-Sound, system-Sound) depth 20

pub net_send-Sound : (r word : ℕ) (s : Vm) → HasObjects s → Sound HasObjects (net_send r word s)
unfolding net_send
net_send-Sound r word s h =
    search (sound_rules, net_check_ref-Sound, get_sock-Sound, data_fd-Sound, system-Sound) depth 20

shut-Sound : (fd : ℕ) (s : Vm) → HasObjects s → Sound HasObjects (shut fd s)
unfolding shut
shut-Sound fd s h = search (sound_rules, system-Sound)

pub net_close-Sound : (r : ℕ) (s : Vm) → HasObjects s → Sound HasObjects (net_close r s)
unfolding net_close
net_close-Sound r s h =
    search (slot_rules, net_check_ref-Sound, get_sock-Sound, shut-Sound) depth 20
