-- ===== src/Collector/Collect.antt =====
-- `arr_gc` of src/array.c: which arrays a collection keeps, and which it frees.
use integer_java_virtual_mac.Base.{ℕ, ◌+◌, ◌≤◌, ◌<◌, ◌≡◌, ◌≢◌, refl, true, false, arith}
use integer_java_virtual_mac.Machine.{
  Vm, Pointer, null, live, dangling, free_block, MArr, Block, Ends, Ends-bind, Ends-mono,
  Ends-never, Ends-ok, ok, AllocSucceeds, alloc-AllocSucceeds,
}
use integer_java_virtual_mac.Collector.{Marks, stack_rounds, sweep_arrays, new_marks, arr_gc}
use integer_java_virtual_mac.Collector.Mark.{
  IsHeap, BadMapIndex, refers, stack_refers, Unreferred, IsMarking, mark_arrays-Ends,
}
use integer_java_virtual_mac.Collector.Sweep.{count_used, with_arrays, sweep_arrays-Ends}

-- What a collection of `s` that frees `a` arrays leaves as its arrays `u`.
pub record IsCollected (s : Vm) (u : MArr Block) (a : ℕ) : Type 0 where
  pub same_size : u.size ≡ s.arr_mem.size
  pub safe :
      (j : ℕ)
      → stack_refers s (stack_rounds s) 0 j ≡ true
      → (u.map j ≡ true) × (u.values j ≡ s.arr_mem.values j)
  pub only_frees :
      (j : ℕ) → u.map j ≡ true → (s.arr_mem.map j ≡ true) × (u.values j ≡ s.arr_mem.values j)
  pub frees :
      (j : ℕ)
      → j < s.arr_mem.size
      → stack_refers s (stack_rounds s) 0 j ≡ false
      → Unreferred s j
      → u.map j ≡ false
  pub counted : a + count_used u.map s.arr_mem.size 0 ≡ count_used s.arr_mem.map s.arr_mem.size 0

abbrev pub Collected : Vm → ℕ → Vm → Type 0
Collected s a t = (u : MArr Block) × (t ≡ with_arrays s u) × IsCollected s u a

sweep-Ends :
    (s : Vm) (m : Marks)
    → IsMarking s m
    → Ends (Collected s) (BadMapIndex s) (sweep_arrays m s.arr_mem.size 0 s)
sweep-Ends s m k = Ends-never (
    Ends-mono (sweep_arrays-Ends s m s.arr_mem.size 0 (omega arith)) λ a t (u, e, w). (
      u,
      e,
      record {
        same_size = w.same_size;
        safe = λ j h.
            let stays : u.map j ≡ true = ground (arith, w.used j, k.covers j h, k.uses j) in
            (stays, w.untouched j stays);
        only_frees = λ j h. (ground (arith, w.used j), w.untouched j h);
        frees = λ j lt h un. ground (arith, w.used j, k.spares j h un);
        counted = w.counted;
      },
    ))

-- The machine with marks.
abbrev pub with_marks : Vm → Vm
with_marks s = record s { marked_arrays = live }

pub free_block-ok :
    (p : Pointer) (s : Vm) → p ≢ dangling → (q : Pointer) × (free_block p s ≡ ok q s)
unfolding free_block
free_block-ok null s free = (null, refl)
free_block-ok live s free = (dangling, refl)
free_block-ok dangling s free = absurd (free refl)

pub new_marks-ok :
    (s : Vm) → AllocSucceeds s → s.marked_arrays ≢ dangling → new_marks s ≡ ok tt (with_marks s)
unfolding new_marks
new_marks-ok s h free =
    let (q, e) = free_block-ok s.marked_arrays s free in rw (e, alloc-AllocSucceeds s h) refl

-- A collection, where the marks of the one before have not been released by `destroy_ijvm`, the
-- allocation of the new ones succeeds, every slot in use holds a block of one cell more than its
-- count and the stack lies in its block, ends with a message only where a word of the stack below
-- the top or an element of an array in use is a reference beyond the last slot. Otherwise it
-- returns, and changes nothing but the marks and the slots of the arrays: an array that a word of
-- the stack below the top refers to is kept with its elements, a slot in use afterwards holds what
-- it held before, an array is freed to which neither such a word nor an element of another array
-- refers, and the result is the number of arrays freed.
pub arr_gc-Ends :
    (s : Vm)
    → AllocSucceeds s
    → s.marked_arrays ≢ dangling
    → IsHeap s.arr_mem
    → stack_rounds s ≤ s.cpu.stack_size
    → Ends (Collected (with_marks s)) (BadMapIndex (with_marks s)) (arr_gc s)
unfolding arr_gc
arr_gc-Ends s h free heap fits =
    let t = with_marks s in
    rw (new_marks-ok s h free)
      (Ends-bind (mark_arrays-Ends t heap fits) λ m u (e, k). rw e (sweep-Ends t m k))

-- The word on top of the stack protects no array: where it refers to an array in use, and no word
-- below it and no element of another array does, a collection that returns has freed that array.
-- The old marks have not been released, the allocation of the new ones succeeds, the slots in use
-- hold their blocks and the top lies in the stack.
pub arr_gc_frees_top :
    (s : Vm) (j : ℕ) {a : ℕ} {t : Vm}
    → AllocSucceeds s
    → s.marked_arrays ≢ dangling
    → IsHeap s.arr_mem
    → s.cpu.sp < s.cpu.stack_size
    → s.cpu.stack_size < 0x8000_0000
    → refers s (s.cpu.stack s.cpu.sp) j ≡ true
    → stack_refers s s.cpu.sp 0 j ≡ false
    → Unreferred s j
    → arr_gc s ≡ ok a t
    → t.arr_mem.map j ≡ false
unfolding stack_refers
arr_gc_frees_top s j h free heap room int top below un ran =
    let rounds : stack_rounds s ≡ s.cpu.sp = ground arith in
    let used : s.arr_mem.map j ≡ true = ground arith in
    let (u, e, k) = Ends-ok (arr_gc-Ends s h free heap (omega arith)) ran in
    rw e (k.frees j ((heap j used).0) (rw rounds below) un)
