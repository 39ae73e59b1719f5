-- ===== src/Init/Frame.antt =====
-- `init_stack` of src/init.c: the frame of `main`.
use integer_java_virtual_mac.Base.{
  ℕ, ◌+◌, ◌≤◌, ◌<◌, ◌≡◌, refl, ◌==◌, ◌&&◌, leb, ltb, if◌then◌else◌, true, false, Bool-cases, inl,
  inr, arith,
}
use integer_java_virtual_mac.Base.Word.{sub_word, is_neg}
use integer_java_virtual_mac.Machine.{live, Vm, ok, AllocSucceeds, alloc, alloc-AllocSucceeds}
use integer_java_virtual_mac.Interpreter.{clear_stack}
use integer_java_virtual_mac.Init.{get_num_local_vars_main, stack_size_for, init_stack}
use integer_java_virtual_mac.Init.Size.{stack_size_for_lem}

-- The machine in `main`, with a stack of `n` cells that hold `f`.
abbrev pub in_main : Vm → ℕ → ℕ → (ℕ → ℕ) → Vm
in_main s vars n f = record s {
  cpu = record (s.cpu) {
    stack_size = n;
    stack = f;
    stack_block = live;
    sp = sub_word vars 1;
    lv = 0;
    nv = vars;
    fp = vars;
  };
}

-- Where the scan of the code finds up to 2 ^ 16 local variables of `main` and the allocation
-- succeeds, the first stack is laid out for them: all of them are 0, `lv` is at the first, `sp` at
-- the last or at -1, `nv` and `fp` are their number, and there is room for 256 words more in a
-- stack whose size is an `int`. Nothing else changes.
pub init_stack-ok :
    (s : Vm) (vars : ℕ)
    → AllocSucceeds s
    → get_num_local_vars_main s ≡ ok vars s
    → vars ≤ 0x10000
    → (n : ℕ) × (f : ℕ → ℕ) × (init_stack s ≡ ok tt (in_main s vars n f))
      × ((j : ℕ) → j < vars → f j ≡ 0)
      × (vars + 256 ≤ n)
      × (n < 0x8000_0000)
unfolding init_stack clear_stack
init_stack-ok s vars h scan few =
    let n = stack_size_for 7 0 vars s.cpu.stack_size in
    let (room, int) = stack_size_for_lem vars s.cpu.stack_size few in
    let t = record s { cpu = record (s.cpu) { stack_size = n } } in
    let proper : is_neg vars ≡ false = ground arith in
    let fits : leb (0 + vars) n ≡ true = ground arith in
    let enough : alloc t ≡ ok true t = alloc-AllocSucceeds t h in
    elim (Bool-cases (vars == 0)) [
      | inl none_used ↦ (
        n,
        s.cpu.stack,
        rw (scan, proper, enough, none_used) refl,
        λ j lt. absurd (ground arith),
        room,
        int,
      )
      | inr some_used ↦ (
        n,
        λ j. if leb 0 j && ltb j (0 + vars) then 0 else s.cpu.stack j,
        rw (scan, proper, enough, some_used, fits) refl,
        λ j lt. ground arith,
        room,
        int,
      )
    ]
