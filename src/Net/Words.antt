-- ===== src/Net/Words.antt =====
-- The operations on connections keep the machine's values words, and give words.
use integer_java_virtual_mac.Base.{ℕ, Bool, true, false, if◌then◌else◌, arith, Option, none, some}
use integer_java_virtual_mac.Machine.{Vm, Sock}
use integer_java_virtual_mac.Machine.Words.{
  IsWord, HasWords, Typed, Any, typed, typed_rules, alloc-Typed, system-Typed,
}
use integer_java_virtual_mac.Marr.{net_conn, marr_get_element}
use integer_java_virtual_mac.Base.Word.{sext8}
use integer_java_virtual_mac.Refs.{net_tag, index_to_ref}
use integer_java_virtual_mac.Arrays.Words.{index_to_ref-IsWord}
use integer_java_virtual_mac.Claim.Words.{
  net_conn-IsTyped, marr_add_element-Typed, marr_resize-Typed, marr_init-Typed,
  marr_remove_element-Typed,
}
use integer_java_virtual_mac.Net.{
  net_check_ref, store_sock, socket_store, socket_create, deref_sock, get_sock, put_sock, serve,
  net_bind, net_connect, data_fd, net_recv, net_send, shut, net_close,
}

marr_get_element-Typed : (i : ℕ) (s : Vm) → HasWords s → Typed Any (marr_get_element net_conn i s)
unfolding marr_get_element
marr_get_element-Typed i s h = search typed_rules

ruleset slot_rules = (
  typed_rules, net_conn-IsTyped, marr_add_element-Typed, marr_resize-Typed, marr_init-Typed,
  marr_get_element-Typed, marr_remove_element-Typed,
)

net_check_ref-Typed : (r : ℕ) (s : Vm) → HasWords s → Typed Any (net_check_ref r s)
unfolding net_check_ref
net_check_ref-Typed r s h = search typed_rules

store_sock-Typed : (k : Sock) (s : Vm) → HasWords s → Typed Any (store_sock k s)
unfolding store_sock
store_sock-Typed k s h = search slot_rules depth 20

socket_store-Typed : (k : Sock) (s : Vm) → HasWords s → Typed IsWord (socket_store k s)
unfolding socket_store
socket_store-Typed k s h =
    let ref : (i : ℕ) → IsWord (index_to_ref net_tag i) =
      λ i. index_to_ref-IsWord net_tag i (omega arith) in
    search (slot_rules, store_sock-Typed, net_check_ref-Typed, ref) depth 20

socket_create-Typed :
    (host port : ℕ) (s : Vm) → HasWords s → Typed IsWord (socket_create host port s)
unfolding socket_create
socket_create-Typed host port s h =
    search (typed_rules, alloc-Typed, system-Typed, socket_store-Typed) depth 20

deref_sock-Typed : (o : Option Sock) (s : Vm) → HasWords s → Typed Any (deref_sock o s)
unfolding deref_sock
deref_sock-Typed none s h = search typed_rules
deref_sock-Typed (some k) s h = search typed_rules

get_sock-Typed : (i : ℕ) (s : Vm) → HasWords s → Typed Any (get_sock i s)
unfolding get_sock
get_sock-Typed i s h = search (slot_rules, deref_sock-Typed)

put_sock-Typed : (i : ℕ) (k : Sock) (s : Vm) → HasWords s → Typed Any (put_sock i k s)
unfolding put_sock
put_sock-Typed i k s h = typed tt h

no_ref : IsWord 0
no_ref = omega arith

if-IsWord : (b : Bool) (x y : ℕ) → IsWord x → IsWord y → IsWord (if b then x else y)
if-IsWord true x y hx hy = hx
if-IsWord false x y hx hy = hy

serve-Typed : (r : ℕ) (k : Sock) (s : Vm) → IsWord r → HasWords s → Typed IsWord (serve r k s)
unfolding serve
serve-Typed r k s w h =
    search (typed_rules, system-Typed, put_sock-Typed, no_ref, if-IsWord) depth 20

pub net_bind-Typed : (port : ℕ) (s : Vm) → HasWords s → Typed IsWord (net_bind port s)
unfolding net_bind
net_bind-Typed port s h =
    search (typed_rules, socket_create-Typed, get_sock-Typed, serve-Typed) depth 20

pub net_connect-Typed :
    (host port : ℕ) (s : Vm) → HasWords s → Typed IsWord (net_connect host port s)
unfolding net_connect
net_connect-Typed host port s h =
    search (typed_rules, socket_create-Typed, get_sock-Typed, system-Typed, put_sock-Typed, no_ref)
      depth 20

data_fd-Typed : (k : Sock) (s : Vm) → HasWords s → Typed Any (data_fd k s)
unfolding data_fd
data_fd-Typed k s h = search typed_rules

pub net_recv-Typed : (r : ℕ) (s : Vm) → HasWords s → Typed IsWord (net_recv r s)
unfolding net_recv
net_recv-Typed r s h =
    let byte : (b : ℕ) → IsWord (sext8 b) = λ b. ground arith in
    search (typed_rules, net_check_ref-Typed, get_sock-Typed, data_fd-Typed, system-Typed, byte)
      depth 20

pub net_send-Typed : (r word : ℕ) (s : Vm) → HasWords s → Typed Any (net_send r word s)
unfolding net_send
net_send-Typed r word s h =
    search (typed_rules, net_check_ref-Typed, get_sock-Typed, data_fd-Typed, system-Typed) depth 20

shut-Typed : (fd : ℕ) (s : Vm) → HasWords s → Typed Any (shut fd s)
unfolding shut
shut-Typed fd s h = search (typed_rules, system-Typed)

pub net_close-Typed : (r : ℕ) (s : Vm) → HasWords s → Typed Any (net_close r s)
unfolding net_close
net_close-Typed r s h =
    search (slot_rules, net_check_ref-Typed, get_sock-Typed, shut-Typed) depth 20
