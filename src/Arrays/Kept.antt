-- ===== src/Arrays/Kept.antt =====
-- The operations on arrays leave the program alone.
use integer_java_virtual_mac.Base.{ℕ, zero, suc, Option, none, some, length}
use integer_java_virtual_mac.Machine.{Vm, Block}
use integer_java_virtual_mac.Machine.Stays.{Stays, fixed, stays_rules, alloc-Stays}
use integer_java_virtual_mac.Collector.Kept.{arr_gc-Stays, read_cell-Stays, deref-Stays}
use integer_java_virtual_mac.Claim.Kept.{
  arr_mem-IsBeside, marr_add_element-Stays, marr_resize-Stays, marr_init-Stays,
  marr_get_element-Stays,
}
use integer_java_virtual_mac.Arrays.{
  init_if_needed, store_element, arr_store, create_retry, arr_create, block_of, arr_check_bounds,
  arr_get, write_cell, arr_set,
}

ruleset slot_rules = (
  stays_rules, arr_mem-IsBeside, marr_add_element-Stays, marr_resize-Stays, marr_init-Stays,
  marr_get_element-Stays,
)

init_if_needed-Stays : (s : Vm) → Stays (fixed s) (init_if_needed s)
unfolding init_if_needed
init_if_needed-Stays s = search slot_rules

store_element-Stays : (b : Block) (s : Vm) → Stays (fixed s) (store_element b s)
unfolding store_element
store_element-Stays b s = search slot_rules depth 20

arr_store-Stays : (b : Block) (s : Vm) → Stays (fixed s) (arr_store b s)
unfolding arr_store
arr_store-Stays b s = search (stays_rules, init_if_needed-Stays, store_element-Stays) depth 20

create_retry-Stays : (fuel n : ℕ) (s : Vm) → Stays (fixed s) (create_retry fuel n s)
unfolding create_retry
create_retry-Stays zero n s = search stays_rules
create_retry-Stays (suc fuel) n s =
    search (stays_rules, alloc-Stays, arr_gc-Stays, arr_store-Stays, create_retry-Stays fuel) depth
      20

pub arr_create-Stays : (n : ℕ) (s : Vm) → Stays (fixed s) (arr_create n s)
unfolding arr_create
arr_create-Stays n s = create_retry-Stays (suc (length s.heap_answers)) n s

block_of-Stays : (o : Option Block) (s : Vm) → Stays (fixed s) (block_of o s)
unfolding block_of
block_of-Stays none s = search stays_rules
block_of-Stays (some b) s = search stays_rules

arr_check_bounds-Stays : (r i : ℕ) (s : Vm) → Stays (fixed s) (arr_check_bounds r i s)
unfolding arr_check_bounds
arr_check_bounds-Stays r i s = search (slot_rules, block_of-Stays, read_cell-Stays) depth 20

pub arr_get-Stays : (r i : ℕ) (s : Vm) → Stays (fixed s) (arr_get r i s)
unfolding arr_get
arr_get-Stays r i s =
    search (slot_rules, arr_check_bounds-Stays, deref-Stays, read_cell-Stays) depth 20

write_cell-Stays :
    (slot : ℕ) (b : Block) (i v : ℕ) (s : Vm) → Stays (fixed s) (write_cell slot b i v s)
unfolding write_cell
write_cell-Stays slot b i v s = search stays_rules

pub arr_set-Stays : (r i v : ℕ) (s : Vm) → Stays (fixed s) (arr_set r i v s)
unfolding arr_set
arr_set-Stays r i v s =
    search (slot_rules, arr_check_bounds-Stays, deref-Stays, write_cell-Stays) depth 20
