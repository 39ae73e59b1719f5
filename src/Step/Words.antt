-- ===== src/Step/Words.antt =====
-- The values of the machine of src/interpreter.c stay 32-bit patterns.
use integer_java_virtual_mac.Base.{
  ℕ, zero, suc, Bool, true, Option, none, some, inl, inr, Bool-cases,
}
use integer_java_virtual_mac.Machine.{Vm, M}
use integer_java_virtual_mac.Machine.Words.{HasWords, Typed, Any, Typed-then, typed, typed_fuel}
use integer_java_virtual_mac.Opcode.{
  Op, nop, bipush, ldc_w, iload, istore, pop, dup, swap, iadd, isub, iand, iinc, ifeq, iflt, icmpeq,
  goto, ireturn, ior, invokevirtual, wide, in_op, out, err, halt, newarray, iaload, iastore, gc,
  netbind, netconnect, netin, netout, netclose, decode,
}
use integer_java_virtual_mac.Interpreter.Words.{
  next_byte-Typed, exec_op_nop-Typed, exec_op_bipush-Typed, exec_op_ldc_w-Typed,
  exec_op_iload-Typed, exec_op_istore-Typed, exec_op_pop-Typed, exec_op_dup-Typed,
  exec_op_swap-Typed, exec_op_iadd-Typed, exec_op_isub-Typed, exec_op_iand-Typed,
  exec_op_iinc-Typed, exec_op_ifeq-Typed, exec_op_iflt-Typed, exec_op_icmpeq-Typed,
  exec_op_goto-Typed, exec_op_ior-Typed, exec_op_err-Typed, exec_op_halt-Typed,
}
use integer_java_virtual_mac.Interpreter.FrameWords.{
  exec_op_ireturn-Typed, exec_op_invokevirtual-Typed,
}
use integer_java_virtual_mac.Interpreter.HostWords.{
  exec_op_in-Typed, exec_op_out-Typed, exec_op_newarray-Typed, exec_op_iaload-Typed,
  exec_op_iastore-Typed, exec_op_gc-Typed, exec_op_netbind-Typed, exec_op_netconnect-Typed,
  exec_op_netin-Typed, exec_op_netout-Typed, exec_op_netclose-Typed,
}
use integer_java_virtual_mac.Step.{exec_op_wide, execute, dispatch, step, finished, run}

abbrev behind_wide : Vm → Vm
behind_wide s = record s { next_op_wide = true }

exec_op_wide-Typed :
    (inner : M Bool) (s : Vm) → Typed Any (inner (behind_wide s)) → Typed Any (exec_op_wide inner s)
unfolding exec_op_wide
exec_op_wide-Typed inner s h = Typed-then _ h λ b t k. typed tt k

execute-Typed :
    (inner : M Bool) (op : Op) (s : Vm)
    → HasWords s
    → Typed Any (inner (behind_wide s))
    → Typed Any (execute inner op s)
unfolding execute
execute-Typed inner wide s h i = exec_op_wide-Typed inner s i
execute-Typed inner nop s h i = exec_op_nop-Typed s h
execute-Typed inner bipush s h i = exec_op_bipush-Typed s h
execute-Typed inner ldc_w s h i = exec_op_ldc_w-Typed s h
execute-Typed inner iload s h i = exec_op_iload-Typed s h
execute-Typed inner istore s h i = exec_op_istore-Typed s h
execute-Typed inner pop s h i = exec_op_pop-Typed s h
execute-Typed inner dup s h i = exec_op_dup-Typed s h
execute-Typed inner swap s h i = exec_op_swap-Typed s h
execute-Typed inner iadd s h i = exec_op_iadd-Typed s h
execute-Typed inner isub s h i = exec_op_isub-Typed s h
execute-Typed inner iand s h i = exec_op_iand-Typed s h
execute-Typed inner iinc s h i = exec_op_iinc-Typed s h
execute-Typed inner ifeq s h i = exec_op_ifeq-Typed s h
execute-Typed inner iflt s h i = exec_op_iflt-Typed s h
execute-Typed inner icmpeq s h i = exec_op_icmpeq-Typed s h
execute-Typed inner goto s h i = exec_op_goto-Typed s h
execute-Typed inner ireturn s h i = exec_op_ireturn-Typed s h
execute-Typed inner ior s h i = exec_op_ior-Typed s h
execute-Typed inner invokevirtual s h i = exec_op_invokevirtual-Typed s h
execute-Typed inner in_op s h i = exec_op_in-Typed s h
execute-Typed inner out s h i = exec_op_out-Typed s h
execute-Typed inner err s h i = exec_op_err-Typed s h
execute-Typed inner halt s h i = exec_op_halt-Typed s h
execute-Typed inner newarray s h i = exec_op_newarray-Typed s h
execute-Typed inner iaload s h i = exec_op_iaload-Typed s h
execute-Typed inner iastore s h i = exec_op_iastore-Typed s h
execute-Typed inner gc s h i = exec_op_gc-Typed s h
execute-Typed inner netbind s h i = exec_op_netbind-Typed s h
execute-Typed inner netconnect s h i = exec_op_netconnect-Typed s h
execute-Typed inner netin s h i = exec_op_netin-Typed s h
execute-Typed inner netout s h i = exec_op_netout-Typed s h
execute-Typed inner netclose s h i = exec_op_netclose-Typed s h

dispatch-Typed :
    (inner : M Bool) (o : Option Op) (s : Vm)
    → HasWords s
    → Typed Any (inner (behind_wide s))
    → Typed Any (dispatch inner o s)
unfolding dispatch
dispatch-Typed inner none s h i = typed tt h
dispatch-Typed inner (some op) s h i =
    Typed-then _ (execute-Typed inner op s h i) λ _ t k. typed tt k

step-Typed : (fuel : ℕ) (s : Vm) → HasWords s → Typed Any (step fuel s)
unfolding step
step-Typed zero s h = typed_fuel
step-Typed (suc fuel) s h =
    Typed-then _ (next_byte-Typed s h)
      λ b t k. dispatch-Typed (step fuel) (decode b) t k (step-Typed fuel (behind_wide t) k)

-- If the registers, the cells of the stack, the constants, the elements of the arrays and what is
-- left of the input are below 2 ^ 32, and the cells of the code below 2 ^ 8, then they are after a
-- run that returns, of any number of instructions, whatever the allocator and the network answer:
-- each of these numbers stands for a word of the machine.
pub run-Typed : (wides fuel : ℕ) (s : Vm) → HasWords s → Typed Any (run wides fuel s)
unfolding run
run-Typed wides zero s h = typed_fuel
run-Typed wides (suc fuel) s h = elim (Bool-cases (finished s)) [
  | inl stop ↦ rw stop (typed tt h)
  | inr more ↦ rw more (Typed-then _ (step-Typed wides s h) λ _ t k. run-Typed wides fuel t k)
]
