-- ===== src/Step/Variables.antt =====
-- `step` of src/interpreter.c on ISTORE and ILOAD.
use integer_java_virtual_mac.Base.{ℕ, suc, ◌+◌, ◌≤◌, ◌<◌, ◌≡◌, refl, true, false, some, arith, ◌==◌}
use integer_java_virtual_mac.Base.Word.{wrap, sub_word}
use integer_java_virtual_mac.Machine.{Vm, ok, update, ◌>>◌}
use integer_java_virtual_mac.Opcode.{istore, iload, decode}
use integer_java_virtual_mac.Cpu.Locals.{HasLocals}
use integer_java_virtual_mac.Interpreter.Fetch.{HasCode, at_pc, next_byte-ok}
use integer_java_virtual_mac.Interpreter.Variables.{
  moved, HasIndex, exec_op_iload-ok, exec_op_istore-ok,
}
use integer_java_virtual_mac.Step.{step, dispatch, execute}

decode-istore : decode 0x36 ≡ some istore
unfolding decode
decode-istore = refl

decode-iload : decode 0x15 ≡ some iload
unfolding decode
decode-iload = refl

-- The code at the program counter is ISTORE `i` and ILOAD `i`, and a word lies in the frame.
pub record StoresAndLoads (s : Vm) (i : ℕ) : Type 0 where
  pub code : HasCode s
  pub fits : s.cpu.pc + 3 < s.cpu.code_mem_size
  pub store : s.cpu.code_mem s.cpu.pc ≡ 0x36
  pub store_index : s.cpu.code_mem (s.cpu.pc + 1) ≡ i
  pub load : s.cpu.code_mem (s.cpu.pc + 2) ≡ 0x15
  pub load_index : s.cpu.code_mem (s.cpu.pc + 3) ≡ i
  pub narrow : s.next_op_wide ≡ false
  pub variable : i < s.cpu.nv
  pub locals : HasLocals s
  pub low : s.cpu.lv ≤ s.cpu.sp
  pub room : s.cpu.sp < s.cpu.stack_size

module _ (fuel : ℕ) (s : Vm) (i : ℕ) (h : StoresAndLoads s i) where
  -- The machine between the two instructions.
  between : Vm
  between =
      moved s (s.cpu.pc + 2) (sub_word s.cpu.sp 1)
        (update s.cpu.stack (s.cpu.lv + i) (s.cpu.stack s.cpu.sp))

  step-istore : step (suc fuel) s ≡ ok true between
  unfolding step dispatch execute between
  step-istore =
      let t = at_pc s (s.cpu.pc + 1) in
      let index : HasIndex t i = record {
        code = record { size = h.code.size; bytes = h.code.bytes };
        argument = omega (arith, h.fits);
        index = h.store_index;
        narrow = h.narrow;
        variable = h.variable;
        locals = record { inside = h.locals.inside; size_int = h.locals.size_int };
      } in
      let next : s.cpu.pc + 1 + 1 ≡ s.cpu.pc + 2 = omega arith in
      rw
        (
          next_byte-ok s h.code (omega (arith, h.fits)),
          h.store,
          decode-istore,
          exec_op_istore-ok t i index h.low h.room,
          next,
        )
        refl

  step-iload :
      step (suc fuel) between
      ≡ ok true (
          moved s (s.cpu.pc + 4) s.cpu.sp (
            update
              (update s.cpu.stack (s.cpu.lv + i) (s.cpu.stack s.cpu.sp))
              s.cpu.sp
              (s.cpu.stack s.cpu.sp)))
  unfolding step dispatch execute between
  step-iload =
      let u =
        moved s (s.cpu.pc + 2) (sub_word s.cpu.sp 1)
          (update s.cpu.stack (s.cpu.lv + i) (s.cpu.stack s.cpu.sp)) in
      let third : s.cpu.pc + 2 + 1 ≡ s.cpu.pc + 3 = omega arith in
      let fourth : s.cpu.pc + 2 + 1 + 1 ≡ s.cpu.pc + 4 = omega arith in
      let t = at_pc u (s.cpu.pc + 2 + 1) in
      let code : HasCode u = record { size = h.code.size; bytes = h.code.bytes } in
      let index : HasIndex t i = record {
        code = record { size = h.code.size; bytes = h.code.bytes };
        argument = omega (arith, h.fits);
        index = rw third h.load_index;
        narrow = h.narrow;
        variable = h.variable;
        locals = record { inside = h.locals.inside; size_int = h.locals.size_int };
      } in
      let back : wrap (sub_word s.cpu.sp 1 + 1) ≡ s.cpu.sp =
        omega (arith, h.room, h.locals.size_int) in
      let same : (s.cpu.lv + i == s.cpu.lv + i) ≡ true = ground arith in
      rw
        (
          next_byte-ok u code (omega (arith, h.fits)),
          h.load,
          decode-iload,
          exec_op_iload-ok t i index (omega (arith, back, h.room)),
          fourth,
          back,
          same,
        )
        refl

  -- Two steps over ISTORE `i` and ILOAD `i`, where `i` is a local variable, a word lies in the
  -- frame and no WIDE is pending: the program counter is behind them, the stack pointer and the
  -- word on top are as before, the variable has the value of that word, and nothing else has
  -- changed.
  pub step-istore_iload :
      (step (suc fuel) >> step (suc fuel)) s
      ≡ ok true (
          moved s (s.cpu.pc + 4) s.cpu.sp (
            update
              (update s.cpu.stack (s.cpu.lv + i) (s.cpu.stack s.cpu.sp))
              s.cpu.sp
              (s.cpu.stack s.cpu.sp)))
  step-istore_iload = rw (step-istore, step-iload) refl
