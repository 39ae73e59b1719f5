-- ===== src/Interpreter/Variables.antt =====
-- ISTORE and ILOAD of src/interpreter.c, without WIDE.
use integer_java_virtual_mac.Base.{ℕ, ◌+◌, ◌≤◌, ◌<◌, ◌≡◌, refl, false, lt→ltb, arith}
use integer_java_virtual_mac.Base.Word.{wrap, sub_word}
use integer_java_virtual_mac.Machine.{Vm, ok, update}
use integer_java_virtual_mac.Cpu.Stack.{popped, stack_pop-ok, stack_push-ok}
use integer_java_virtual_mac.Cpu.Locals.{
  HasLocals, get_local_variable_lem, update_local_variable_lem,
}
use integer_java_virtual_mac.Interpreter.Fetch.{HasCode, at_pc, get_arg_byte-ok}
use integer_java_virtual_mac.Interpreter.Compute.{variable_index, exec_op_iload, exec_op_istore}

-- The machine with another program counter, stack pointer and stack.
abbrev pub moved : Vm → ℕ → ℕ → (ℕ → ℕ) → Vm
moved s p k f = record s { cpu = record (s.cpu) { pc = p; sp = k; stack = f } }

-- The byte at the program counter is the index of a local variable, and no WIDE is pending.
pub record HasIndex (s : Vm) (i : ℕ) : Type 0 where
  pub code : HasCode s
  pub argument : s.cpu.pc < s.cpu.code_mem_size
  pub index : s.cpu.code_mem s.cpu.pc ≡ i
  pub narrow : s.next_op_wide ≡ false
  pub variable : i < s.cpu.nv
  pub locals : HasLocals s

module _ (s : Vm) (i : ℕ) (h : HasIndex s i) where
  variable_index-ok : variable_index s ≡ ok i (at_pc s (s.cpu.pc + 1))
  unfolding variable_index
  variable_index-ok = rw (get_arg_byte-ok s h.code h.argument, h.index, h.narrow) refl

  pub exec_op_iload-ok :
      wrap (s.cpu.sp + 1) < s.cpu.stack_size
      → exec_op_iload s
        ≡ ok tt (
            moved s
              (s.cpu.pc + 1)
              (wrap (s.cpu.sp + 1))
              (update s.cpu.stack (wrap (s.cpu.sp + 1)) (s.cpu.stack (s.cpu.lv + i))))
  unfolding exec_op_iload
  exec_op_iload-ok room =
      let t = at_pc s (s.cpu.pc + 1) in
      let locals : HasLocals t = record {
        inside = h.locals.inside;
        size_int = h.locals.size_int;
      } in
      let byte : i < 0x1_0000_0000 =
        omega (arith, h.variable, h.locals.inside, h.locals.size_int) in
      rw
        (
          variable_index-ok,
          get_local_variable_lem t locals i byte,
          lt→ltb i s.cpu.nv h.variable,
          stack_push-ok t (s.cpu.stack (s.cpu.lv + i)) room h.locals.size_int,
        )
        refl

module _ (s : Vm) (i : ℕ) (h : HasIndex s i) where
  pub exec_op_istore-ok :
      s.cpu.lv ≤ s.cpu.sp
      → s.cpu.sp < s.cpu.stack_size
      → exec_op_istore s
        ≡ ok tt (
            moved s
              (s.cpu.pc + 1)
              (sub_word s.cpu.sp 1)
              (update s.cpu.stack (s.cpu.lv + i) (s.cpu.stack s.cpu.sp)))
  unfolding exec_op_istore
  exec_op_istore-ok low room =
      let t = popped s in
      let index : HasIndex t i = record {
        code = record { size = h.code.size; bytes = h.code.bytes };
        argument = h.argument;
        index = h.index;
        narrow = h.narrow;
        variable = h.variable;
        locals = record { inside = h.locals.inside; size_int = h.locals.size_int };
      } in
      let byte : i < 0x1_0000_0000 =
        omega (arith, h.variable, h.locals.inside, h.locals.size_int) in
      let u = at_pc t (s.cpu.pc + 1) in
      let locals : HasLocals u = record {
        inside = h.locals.inside;
        size_int = h.locals.size_int;
      } in
      rw
        (
          stack_pop-ok s low room h.locals.size_int,
          variable_index-ok t i index,
          update_local_variable_lem u locals (s.cpu.stack s.cpu.sp) i byte,
          lt→ltb i s.cpu.nv h.variable,
        )
        refl
