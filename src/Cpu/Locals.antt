-- ===== src/Cpu/Locals.antt =====
-- Local variables, src/cpu.c.
use integer_java_virtual_mac.Base.{
  ℕ, ◌+◌, ◌≤◌, ◌<◌, ◌≡◌, ◌∙◌, ◌==◌, ◌||◌, ltb, not, if◌then◌else◌, arith,
}
use integer_java_virtual_mac.Base.Word.{is_neg, sle}
use integer_java_virtual_mac.Machine.{Vm, bad_variable, ok, exit, update, read_stack, write_stack}
use integer_java_virtual_mac.Cpu.{get_local_variable, update_local_variable}

-- The local variables lie in the stack.
pub record HasLocals (s : Vm) : Type 0 where
  pub inside : s.cpu.lv + s.cpu.nv ≤ s.cpu.stack_size
  pub size_int : s.cpu.stack_size < 0x8000_0000

-- The machine with another value in a local variable.
abbrev pub assigned : Vm → ℕ → ℕ → Vm
assigned s i v = record s { cpu = record (s.cpu) { stack = update s.cpu.stack (s.cpu.lv + i) v } }

module _ (s : Vm) (h : HasLocals s) where
  variable_test : (i : ℕ) → i < 0x1_0000_0000 → (is_neg i || sle s.cpu.nv i) ≡ not (ltb i s.cpu.nv)
  variable_test i w = ground (arith, h.inside, h.size_int)

  pub get_local_variable_lem :
      (i : ℕ)
      → i < 0x1_0000_0000
      → get_local_variable i s
        ≡ (if ltb i s.cpu.nv then ok (s.cpu.stack (s.cpu.lv + i)) s else exit bad_variable s)
  unfolding get_local_variable read_stack
  get_local_variable_lem i w = rw (variable_test i w) (ground (arith, h.inside, h.size_int))

  pub update_local_variable_lem :
      (v i : ℕ)
      → i < 0x1_0000_0000
      → update_local_variable v i s
        ≡ (if ltb i s.cpu.nv then ok tt (assigned s i v) else exit bad_variable s)
  unfolding update_local_variable write_stack
  update_local_variable_lem v i w = rw (variable_test i w) (ground (arith, h.inside, h.size_int))

-- After an assignment to a local variable, where all of them lie in the stack, every index word
-- reads as before, the assigned variable as the new value, and an index that is not below the
-- number of variables, a negative one included, gives the message about a bad variable.
pub update_local_variable-get_local_variable :
    (s : Vm) (v i j : ℕ) {t : Vm}
    → HasLocals s
    → i < 0x1_0000_0000
    → j < 0x1_0000_0000
    → update_local_variable v i s ≡ ok tt t
    → get_local_variable j t ≡ (
        if ltb j s.cpu.nv
        then ok (if j == i then v else s.cpu.stack (s.cpu.lv + j)) t
        else exit bad_variable t)
update_local_variable-get_local_variable s v i j {t} h wi wj ran =
    let u = assigned s i v in
    let inside : HasLocals u = record { inside = h.inside; size_int = h.size_int } in
    let e : t ≡ u = ground (arith, update_local_variable_lem s h v i wi) in
    rw e (get_local_variable_lem u inside j wj ∙ ground arith)
