-- ===== src/Collector.antt =====
-- The garbage collector of src/array.c: mark what the stack and the arrays mention, sweep the rest.
-- What `marked_arrays` holds is passed along, since every collection allocates it anew; the machine
-- has its pointer.
pub mod Mark
pub mod Sweep
pub mod Collect
pub mod Stray
pub mod Kept
pub mod Sound
use integer_java_virtual_mac.Base.{
  ℕ, zero, suc, ◌+◌, Bool, true, false, not, ◌&&◌, Option, none, some, ◌==◌, ltb, if◌then◌else◌,
}
use integer_java_virtual_mac.Base.Word.{is_neg}
use integer_java_virtual_mac.Refs.{arr_tag, ref_to_index, is_ref}
use integer_java_virtual_mac.Machine.{
  Block, Vm, null, live, free_block, modify, no_memory, fault, ok, M, pure, ◌>>=◌, ◌>>◌, stop_if,
  update, alloc, read_stack,
}
use integer_java_virtual_mac.Marr.{
  arr_mem, marr_check_marked, marr_get_element, marr_remove_element,
}

abbrev pub Marks : Type 0
Marks = ℕ → Bool

unfoldable pub arr_remove : ℕ → M (Unit {0})
arr_remove i = do marr_get_element arr_mem i; marr_remove_element arr_mem i

-- What both marking loops do with a word: mark the array that it refers to, if it is one in use.
unfoldable pub mark_word : ℕ → Marks → M Marks
mark_word w m =
    if is_ref arr_tag w
    then (do
      claimed ← marr_check_marked arr_mem (ref_to_index w)
      pure (if claimed then update m (ref_to_index w) true else m))
    else pure m

-- `for (int stack_i = 0; stack_i < g_cpu->sp; stack_i++)`, with the rounds that are left.
unfoldable pub mark_stack : ℕ → ℕ → Marks → M Marks
mark_stack zero i m = pure m
mark_stack (suc n) i m = do w ← read_stack i; m' ← mark_word w m; mark_stack n (i + 1) m'

-- `arr_ptr[i]`
unfoldable pub read_cell : Block → ℕ → M ℕ
read_cell b i s = if ltb i b.allocated then ok (b.cells i) s else fault

-- The elements of array `own`; a reference of an array to itself is skipped.
unfoldable pub mark_elements : Block → ℕ → ℕ → ℕ → Marks → M Marks
mark_elements b own zero i m = pure m
mark_elements b own (suc n) i m = do
  w ← read_cell b i
  m' ← (if is_ref arr_tag w && (ref_to_index w == own) then pure m else mark_word w m)
  mark_elements b own n (i + 1) m'

-- A NULL pointer in a slot would be dereferenced.
unfoldable pub deref : Option Block → M Block
deref none s = fault
deref (some b) s = ok b s

unfoldable pub mark_slot : ℕ → Marks → M Marks
mark_slot i m =
    if m i
    then (do
      b ← deref (← marr_get_element arr_mem i)
      count ← read_cell b 0
      mark_elements b i count 1 m)
    else pure m

-- One pass over the slots: a mark set behind the pass is not followed.
unfoldable pub mark_children : ℕ → ℕ → Marks → M Marks
mark_children zero i m = pure m
mark_children (suc n) i m = do m' ← mark_slot i m; mark_children n (i + 1) m'

abbrev pub stack_rounds : Vm → ℕ
stack_rounds s = if is_neg s.cpu.sp then 0 else s.cpu.sp

unfoldable pub mark_arrays : M Marks
mark_arrays s = (mark_stack (stack_rounds s) 0 (λ _. false) >>= mark_children s.arr_mem.size 0) s

unfoldable pub sweep_slot : Marks → ℕ → M ℕ
sweep_slot m i = if m i then pure 0 else (do
  claimed ← marr_check_marked arr_mem i
  if claimed then (do arr_remove i; pure 1) else pure 0)

unfoldable pub sweep_arrays : Marks → ℕ → ℕ → M ℕ
sweep_arrays m zero i = pure 0
sweep_arrays m (suc n) i = do a ← sweep_slot m i; b ← sweep_arrays m n (i + 1); pure (a + b)

-- `marked_arrays` is freed and allocated anew.
unfoldable pub new_marks : M (Unit {0})
new_marks = do
  (λ s. free_block s.marked_arrays s)
  enough ← alloc
  modify (λ s. record s { marked_arrays = if enough then live else null })
  stop_if (not enough) no_memory

unfoldable pub arr_gc : M ℕ
arr_gc = do new_marks; m ← mark_arrays; λ s. sweep_arrays m s.arr_mem.size 0 s
