-- ===== src/Arrays.antt =====
-- The arrays of src/array.c: creation, access by a reference, and the end of all of them.
pub mod Access
pub mod Kept
pub mod Sound
pub mod Words
pub mod Store
pub mod Create
pub mod Safe
pub mod Sequence
pub mod Refine
use integer_java_virtual_mac.Base.{
  ℕ, zero, suc, ◌+◌, ◌*◌, not, ◌||◌, Option, none, some, ◌==◌, ltb, if◌then◌else◌, length,
}
use integer_java_virtual_mac.Base.Word.{minus_one, wrap, slt, sle}
use integer_java_virtual_mac.Refs.{arr_tag, ref_to_index, index_to_ref, is_ref}
use integer_java_virtual_mac.Machine.{
  Block, free_block, modify, no_memory, too_many_arrays, bad_array_size, bad_array_reference,
  no_array, outside_array, fault, ok, exit, out_of_fuel, M, pure, ◌>>=◌, ◌>>◌, stop_if, update,
  alloc,
}
use integer_java_virtual_mac.Marr.{arr_mem, marr_check_marked, marr_get_element, marr_destroy}
use integer_java_virtual_mac.Collector.{arr_remove, arr_gc, deref, read_cell}
use integer_java_virtual_mac.Claim.{marr_add_element, marr_resize, marr_init}

-- `ARRAYS_MIN_NUM` of include/config.h
abbrev pub arrays_min_num : ℕ
arrays_min_num = 64

unfoldable pub init_if_needed : M (Unit {0})
init_if_needed s = if s.arr_mem.size == 0 then marr_init arr_mem arrays_min_num s else ok tt s

-- Saves an array, after making room for it if all slots are in use.
unfoldable pub store_element : Block → M ℕ
store_element b = do
  i ← marr_add_element arr_mem b
  if i == minus_one
      then (do (λ s. marr_resize arr_mem (wrap (s.arr_mem.size * 2)) s); marr_add_element arr_mem b)
      else pure i

unfoldable pub arr_store : Block → M ℕ
arr_store b = do
  init_if_needed
  i ← store_element b
  stop_if (not (is_ref arr_tag (index_to_ref arr_tag i))) too_many_arrays
  pure (index_to_ref arr_tag i)

-- `calloc` clears the block; its first cell holds the count.
abbrev pub new_block : ℕ → Block
new_block count = record { allocated = count + 1; cells = λ i. if i == 0 then count else 0 }

-- `arr_create`, whose call of itself after a failed allocation takes fuel.
unfoldable pub create_retry : ℕ → ℕ → M ℕ
create_retry zero count = λ _. out_of_fuel
create_retry (suc fuel) count = do
  stop_if (sle count 0) bad_array_size
  enough ← alloc
  if enough
      then arr_store (new_block count)
      else (do freed ← arr_gc; if freed == 0 then exit no_memory else create_retry fuel count)

unfoldable pub arr_create : ℕ → M ℕ
arr_create count s = create_retry (suc (length s.heap_answers)) count s

-- A NULL pointer in a slot is told apart here.
unfoldable pub block_of : Option Block → M Block
block_of none = exit no_array
block_of (some b) = pure b

unfoldable pub arr_check_bounds : ℕ → ℕ → M (Unit {0})
arr_check_bounds r i = do
  stop_if (not (is_ref arr_tag r)) bad_array_reference
  b ← block_of (← marr_get_element arr_mem (ref_to_index r))
  size ← read_cell b 0
  stop_if (slt (wrap (i + 1)) 1 || ltb size (wrap (i + 1))) outside_array

unfoldable pub arr_get : ℕ → ℕ → M ℕ
arr_get r i = do
  arr_check_bounds r i
  b ← deref (← marr_get_element arr_mem (ref_to_index r))
  read_cell b (wrap (i + 1))

-- A write through the pointer that a slot holds.
unfoldable pub write_cell : ℕ → Block → ℕ → ℕ → M (Unit {0})
write_cell slot b i v s =
    if ltb i b.allocated
    then ok tt (record s {
      arr_mem = record (s.arr_mem) {
        values = update s.arr_mem.values slot (some (record b { cells = update b.cells i v }));
      };
    })
    else fault

unfoldable pub arr_set : ℕ → ℕ → ℕ → M (Unit {0})
arr_set r i v = do
  arr_check_bounds r i
  b ← deref (← marr_get_element arr_mem (ref_to_index r))
  write_cell (ref_to_index r) b (wrap (i + 1)) v

unfoldable pub destroy_slots : ℕ → ℕ → M (Unit {0})
destroy_slots zero i = pure tt
destroy_slots (suc n) i = do
  claimed ← marr_check_marked arr_mem i
  (if claimed then arr_remove i else pure tt)
  destroy_slots n (i + 1)

unfoldable pub arr_destroy : M (Unit {0})
arr_destroy = do
  (λ s. destroy_slots s.arr_mem.size 0 s)
  marr_destroy arr_mem
  marks ← (λ s. free_block s.marked_arrays s)
  modify (λ s. record s { marked_arrays = marks })
