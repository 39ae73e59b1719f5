-- ===== src/Interpreter/Control.antt =====
-- The instructions of src/interpreter.c that move the program counter or stop the machine.
use integer_java_virtual_mac.Base.{
  ℕ, ◌+◌, ◌%◌, Bool, true, not, ◌&&◌, ◌||◌, leb, ◌==◌, ltb, if◌then◌else◌,
}
use integer_java_virtual_mac.Base.Word.{wrap, sub_word, is_neg, slt, sle, sext16, minus_one}
use integer_java_virtual_mac.Machine.{
  Cpu, bad_frame, bad_method, push_failed, bad_arguments, fault, ok, M, pure, ◌>>=◌, ◌>>◌, stop_if,
  when, modify_cpu,
}
use integer_java_virtual_mac.Cpu.{stack_push, stack_pop, get_constant, jump}
use integer_java_virtual_mac.Interpreter.Args.{get_arg_short}
use integer_java_virtual_mac.Interpreter.Compute.{push}

-- `(int16_t)(get_arg_short() - 3)`: the offset counts from the instruction itself.
unfoldable pub jump_offset : M ℕ
jump_offset = do x ← get_arg_short; pure (sext16 (sub_word x 3))

unfoldable pub exec_op_ifeq : M (Unit {0})
exec_op_ifeq = do offset ← jump_offset; v ← stack_pop; when (v == 0) (jump offset)

unfoldable pub exec_op_iflt : M (Unit {0})
exec_op_iflt = do offset ← jump_offset; v ← stack_pop; when (is_neg v) (jump offset)

unfoldable pub exec_op_icmpeq : M (Unit {0})
exec_op_icmpeq = do offset ← jump_offset; v ← stack_pop; w ← stack_pop; when (v == w) (jump offset)

unfoldable pub exec_op_goto : M (Unit {0})
exec_op_goto = do offset ← jump_offset; jump offset

-- The test of `exec_op_ireturn` on the registers that it has restored.
unfoldable pub outside_frame : Cpu → Bool
outside_frame c =
    slt c.sp minus_one
    || sle c.stack_size c.sp
    || is_neg c.pc
    || sle c.code_mem_size c.pc
    || is_neg c.fp
    || sle c.stack_size c.fp
    || is_neg c.nv
    || sle c.stack_size c.lv
    || is_neg c.lv
    || sle c.stack_size c.lv

unfoldable pub exec_op_ireturn : M (Unit {0})
exec_op_ireturn = do
  ret_val ← stack_pop
  old_nv ← (λ s. ok s.cpu.nv s)
  modify_cpu (λ c. record c { sp = wrap (c.fp + 3) })
  pc ← stack_pop
  modify_cpu (λ c. record c { pc = pc })
  fp ← stack_pop
  modify_cpu (λ c. record c { fp = fp })
  nv ← stack_pop
  modify_cpu (λ c. record c { nv = nv })
  lv ← stack_pop
  modify_cpu (λ c. record c { lv = lv; sp = sub_word c.sp old_nv })
  (λ s. stop_if (outside_frame s.cpu) bad_frame s)
  push ret_val

-- `memset` of `n` cells from `i`.
unfoldable pub clear_stack : ℕ → ℕ → M (Unit {0})
clear_stack i n s =
    if n == 0
    then ok tt s
    else if leb (i + n) s.cpu.stack_size
    then ok tt (record s {
      cpu = record (s.cpu) { stack = λ j. if leb i j && ltb j (i + n) then 0 else s.cpu.stack j };
    })
    else fault

unfoldable pub checked_push : ℕ → M (Unit {0})
checked_push e = do done ← stack_push e; stop_if (not done) push_failed

unfoldable pub save_registers : ℕ → M (Unit {0})
save_registers old_pc = do
  (λ s. checked_push s.cpu.lv s)
  (λ s. checked_push s.cpu.nv s)
  (λ s. checked_push s.cpu.fp s)
  checked_push old_pc

-- `exec_op_invokevirtual` from `g_cpu->sp += num_locals` on.
unfoldable pub open_frame : ℕ → ℕ → ℕ → M (Unit {0})
open_frame num_args num_locals old_pc = do
  modify_cpu (λ c. record c { sp = wrap (c.sp + num_locals) })
  save_registers old_pc
  modify_cpu (λ c. record c {
    fp = sub_word c.sp 3;
    nv = num_args + num_locals;
    lv = sub_word (sub_word c.sp 3) (num_args + num_locals);
  })
  (λ s. stop_if (is_neg s.cpu.lv) bad_arguments s)
  (λ s. clear_stack (wrap (s.cpu.lv + num_args)) num_locals s)

unfoldable pub exec_op_invokevirtual : M (Unit {0})
exec_op_invokevirtual = do
  i ← get_arg_short
  offset ← get_constant i
  old_pc ← (λ s. ok s.cpu.pc s)
  (λ s. stop_if (is_neg offset || sle s.cpu.code_mem_size offset) bad_method s)
  modify_cpu (λ c. record c { pc = offset })
  num_args ← get_arg_short
  num_locals ← get_arg_short
  open_frame (num_args % 0x10000) (num_locals % 0x10000) old_pc

unfoldable pub exec_op_err : M (Unit {0})
exec_op_err = modify_cpu (λ c. record c { error_flag = true })

unfoldable pub exec_op_halt : M (Unit {0})
exec_op_halt = modify_cpu (λ c. record c { halt_flag = true })
