-- ===== src/Collector/Stray.antt =====
-- `arr_gc` of src/array.c on a number that looks like a reference.
use mathlib.Core.Path.{subst}
use integer_java_virtual_mac.Base.{
  ℕ, zero, suc, ◌+◌, ◌≤◌, ◌<◌, ◌≡◌, ◌≢◌, refl, true, false, arith, le→leb, lt→ltb,
}
use integer_java_virtual_mac.Refs.{arr_tag, ref_to_index, is_ref}
use integer_java_virtual_mac.Machine.{
  Vm, dangling, Run, exit, bad_map_index, Ends, returns, exits, and_then, AllocSucceeds, read_stack,
  M,
}
use integer_java_virtual_mac.Marr.{marr_check_marked}
use integer_java_virtual_mac.Collector.{
  Marks, mark_word, mark_stack, stack_rounds, mark_arrays, arr_gc,
}
use integer_java_virtual_mac.Collector.Collect.{with_marks, new_marks-ok}
use integer_java_virtual_mac.Collector.Mark.{BadIndexIn, mark_word-Ends}

-- The word has the format of a reference, but there is no slot for it.
pub record IsStray (s : Vm) (w : ℕ) : Type 0 where
  pub format : is_ref arr_tag w ≡ true
  pub beyond : s.arr_mem.size ≤ ref_to_index w

mark_word-IsStray :
    (s : Vm) (w : ℕ) (m : Marks) → IsStray s w → mark_word w m s ≡ exit bad_map_index s
unfolding mark_word marr_check_marked
mark_word-IsStray s w m h = rw (h.format, le→leb _ _ h.beyond) refl

-- What may end with a bad index, and is followed by a command that does, does.
then_BadMapIndex :
    {P : Marks → Vm → Type 0} (s : Vm) (r : Run Marks) (k : Marks → M Marks)
    → Ends P (BadIndexIn (λ _. Unit) s) r
    → ((m : Marks) (t : Vm) → P m t → k m t ≡ exit bad_map_index s)
    → and_then r k ≡ exit bad_map_index s
then_BadMapIndex s _ k (returns p) next = next _ _ p
then_BadMapIndex s _ k (exits (e, e', stray)) next = rw (e, e') refl

mark_stack-IsStray :
    (s : Vm) (n i k : ℕ) (m : Marks)
    → i + n ≤ s.cpu.stack_size
    → k < n
    → IsStray s (s.cpu.stack (i + k))
    → mark_stack n i m s ≡ exit bad_map_index s
unfolding mark_stack read_stack
mark_stack-IsStray s zero i k m fits lt h = absurd (omega arith)
mark_stack-IsStray s (suc n) i zero m fits lt h =
    let now : IsStray s (s.cpu.stack i) =
      subst (λ (j : ℕ). IsStray s (s.cpu.stack j)) (omega arith) h in
    rw (lt→ltb i s.cpu.stack_size (omega arith), mark_word-IsStray s (s.cpu.stack i) m now) refl
mark_stack-IsStray s (suc n) i (suc k) m fits lt h =
    let later : IsStray s (s.cpu.stack (i + 1 + k)) =
      subst (λ (j : ℕ). IsStray s (s.cpu.stack j)) (omega arith) h in
    rw (lt→ltb i s.cpu.stack_size (omega arith)) (
      then_BadMapIndex s _ _ (mark_word-Ends (λ _. Unit) s (s.cpu.stack i) m tt) λ m' t (e, new).
        rw e (mark_stack-IsStray s n (i + 1) k m' (omega arith) (omega arith) later))

-- A number on the stack below the top that looks like a reference to an array, while there is no
-- slot of that index, ends the machine with the message about a bad index when garbage is
-- collected. The old marks have not been released, the allocation of the new ones succeeds and the
-- stack lies in its block.
pub arr_gc-IsStray :
    (s : Vm) (i : ℕ)
    → AllocSucceeds s
    → s.marked_arrays ≢ dangling
    → stack_rounds s ≤ s.cpu.stack_size
    → i < stack_rounds s
    → IsStray s (s.cpu.stack i)
    → arr_gc s ≡ exit bad_map_index (with_marks s)
unfolding arr_gc mark_arrays
arr_gc-IsStray s i h free fits lt stray =
    let t = with_marks s in
    let beyond : IsStray t (s.cpu.stack (0 + i)) =
      subst (λ (j : ℕ). IsStray t (s.cpu.stack j)) (omega arith)
        (record { format = stray.format; beyond = stray.beyond }) in
    let ends =
      mark_stack-IsStray t (stack_rounds s) 0 i (λ _. false) (omega arith) (omega arith) beyond in
    rw (new_marks-ok s h free, ends) refl
