-- ===== src/Step.antt =====
-- `step`, `finished` and `run` of src/interpreter.c. WIDE executes the instruction behind it by a
-- call of `step`, so `step` takes fuel: one unit for each WIDE in a row, and one more.
pub mod Kept
pub mod Sound
pub mod Words
pub mod Rounds
pub mod Variables
use integer_java_virtual_mac.Base.{
  ℕ, zero, suc, Bool, true, false, ◌||◌, Option, none, some, if◌then◌else◌,
}
use integer_java_virtual_mac.Base.Word.{is_neg, sle}
use integer_java_virtual_mac.Machine.{Vm, ok, out_of_fuel, M, pure, ◌>>=◌, ◌>>◌, modify, modify_cpu}
use integer_java_virtual_mac.Opcode.{
  Op, nop, bipush, ldc_w, iload, istore, pop, dup, swap, iadd, isub, iand, iinc, ifeq, iflt, icmpeq,
  goto, ireturn, ior, invokevirtual, wide, in_op, out, err, halt, newarray, iaload, iastore, gc,
  netbind, netconnect, netin, netout, netclose, decode,
}
use integer_java_virtual_mac.Interpreter.{
  next_byte, exec_op_nop, exec_op_bipush, exec_op_ldc_w, exec_op_iload, exec_op_istore, exec_op_pop,
  exec_op_dup, exec_op_swap, exec_op_iadd, exec_op_isub, exec_op_iand, exec_op_iinc, exec_op_ifeq,
  exec_op_iflt, exec_op_icmpeq, exec_op_goto, exec_op_ireturn, exec_op_ior, exec_op_invokevirtual,
  exec_op_in, exec_op_out, exec_op_err, exec_op_halt, exec_op_newarray, exec_op_iaload,
  exec_op_iastore, exec_op_gc, exec_op_netbind, exec_op_netconnect, exec_op_netin, exec_op_netout,
  exec_op_netclose,
}

-- `exec_op_wide`, over the call of `step`.
unfoldable pub exec_op_wide : M Bool → M (Unit {0})
exec_op_wide step = do
  modify (λ s. record s { next_op_wide = true })
  step
  modify (λ s. record s { next_op_wide = false })

-- The `switch` of `step`.
unfoldable pub execute : M Bool → Op → M (Unit {0})
execute step nop = exec_op_nop
execute step bipush = exec_op_bipush
execute step ldc_w = exec_op_ldc_w
execute step iload = exec_op_iload
execute step istore = exec_op_istore
execute step pop = exec_op_pop
execute step dup = exec_op_dup
execute step swap = exec_op_swap
execute step iadd = exec_op_iadd
execute step isub = exec_op_isub
execute step iand = exec_op_iand
execute step iinc = exec_op_iinc
execute step ifeq = exec_op_ifeq
execute step iflt = exec_op_iflt
execute step icmpeq = exec_op_icmpeq
execute step goto = exec_op_goto
execute step ireturn = exec_op_ireturn
execute step ior = exec_op_ior
execute step invokevirtual = exec_op_invokevirtual
execute step wide = exec_op_wide step
execute step in_op = exec_op_in
execute step out = exec_op_out
execute step err = exec_op_err
execute step halt = exec_op_halt
execute step newarray = exec_op_newarray
execute step iaload = exec_op_iaload
execute step iastore = exec_op_iastore
execute step gc = exec_op_gc
execute step netbind = exec_op_netbind
execute step netconnect = exec_op_netconnect
execute step netin = exec_op_netin
execute step netout = exec_op_netout
execute step netclose = exec_op_netclose

-- An instruction that was decoded, or the default of the `switch`.
unfoldable pub dispatch : M Bool → Option Op → M Bool
dispatch step none = modify_cpu (λ c. record c { error_flag = true }) >> pure false
dispatch step (some op) = execute step op >> pure true

unfoldable pub step : ℕ → M Bool
step zero = λ _. out_of_fuel
step (suc fuel) = do b ← next_byte; dispatch (step fuel) (decode b)

unfoldable pub finished : Vm → Bool
finished s =
    (is_neg s.cpu.pc || sle s.cpu.code_mem_size s.cpu.pc) || s.cpu.error_flag || s.cpu.halt_flag

-- `while (!finished()) step();`, with fuel for the rounds and for each `step`.
unfoldable pub run : ℕ → ℕ → M (Unit {0})
run wides zero = λ _. out_of_fuel
run wides (suc fuel) = do
  stop ← (λ s. ok (finished s) s)
  if stop then pure tt else (do step wides; run wides fuel)
