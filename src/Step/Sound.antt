-- ===== src/Step/Sound.antt =====
-- `step` of src/interpreter.c keeps the invariant of the mapped arrays, and has fuel enough if it
-- is given more units than there are bytes of code.
use integer_java_virtual_mac.Base.{
  ℕ, zero, suc, ◌+◌, ◌≤◌, ◌<◌, ◌≡◌, Bool, true, false, Option, none, some, inl, inr, Bool-cases,
  ltb, arith,
}
use integer_java_virtual_mac.Base.Word.{wrap}
use integer_java_virtual_mac.Machine.{Vm, M}
use integer_java_virtual_mac.Marr.Slots.{HasObjects}
use integer_java_virtual_mac.Marr.Sound.{Sound, Sound-bind, sound, sound_fault}
use integer_java_virtual_mac.Opcode.{
  Op, nop, bipush, ldc_w, iload, istore, pop, dup, swap, iadd, isub, iand, iinc, ifeq, iflt, icmpeq,
  goto, ireturn, ior, invokevirtual, wide, in_op, out, err, halt, newarray, iaload, iastore, gc,
  netbind, netconnect, netin, netout, netclose, decode,
}
use integer_java_virtual_mac.Interpreter.{next_byte}
use integer_java_virtual_mac.Interpreter.Sound.{
  exec_op_nop-Sound, exec_op_bipush-Sound, exec_op_ldc_w-Sound, exec_op_iload-Sound,
  exec_op_istore-Sound, exec_op_pop-Sound, exec_op_dup-Sound, exec_op_swap-Sound,
  exec_op_iadd-Sound, exec_op_isub-Sound, exec_op_iand-Sound, exec_op_iinc-Sound,
  exec_op_ifeq-Sound, exec_op_iflt-Sound, exec_op_icmpeq-Sound, exec_op_goto-Sound,
  exec_op_ireturn-Sound, exec_op_ior-Sound, exec_op_invokevirtual-Sound, exec_op_in-Sound,
  exec_op_out-Sound, exec_op_err-Sound, exec_op_halt-Sound, exec_op_newarray-Sound,
  exec_op_iaload-Sound, exec_op_iastore-Sound, exec_op_gc-Sound, exec_op_netbind-Sound,
  exec_op_netconnect-Sound, exec_op_netin-Sound, exec_op_netout-Sound, exec_op_netclose-Sound,
}
use integer_java_virtual_mac.Step.{exec_op_wide, execute, dispatch, step}

abbrev behind_wide : Vm → Vm
behind_wide s = record s { next_op_wide = true }

exec_op_wide-Sound :
    (inner : M Bool) (s : Vm)
    → Sound HasObjects (inner (behind_wide s))
    → Sound HasObjects (exec_op_wide inner s)
unfolding exec_op_wide
exec_op_wide-Sound inner s h = Sound-bind _ h λ b t k. sound k

execute-Sound :
    (inner : M Bool) (op : Op) (s : Vm)
    → HasObjects s
    → Sound HasObjects (inner (behind_wide s))
    → Sound HasObjects (execute inner op s)
unfolding execute
execute-Sound inner wide s h i = exec_op_wide-Sound inner s i
execute-Sound inner nop s h i = exec_op_nop-Sound s h
execute-Sound inner bipush s h i = exec_op_bipush-Sound s h
execute-Sound inner ldc_w s h i = exec_op_ldc_w-Sound s h
execute-Sound inner iload s h i = exec_op_iload-Sound s h
execute-Sound inner istore s h i = exec_op_istore-Sound s h
execute-Sound inner pop s h i = exec_op_pop-Sound s h
execute-Sound inner dup s h i = exec_op_dup-Sound s h
execute-Sound inner swap s h i = exec_op_swap-Sound s h
execute-Sound inner iadd s h i = exec_op_iadd-Sound s h
execute-Sound inner isub s h i = exec_op_isub-Sound s h
execute-Sound inner iand s h i = exec_op_iand-Sound s h
execute-Sound inner iinc s h i = exec_op_iinc-Sound s h
execute-Sound inner ifeq s h i = exec_op_ifeq-Sound s h
execute-Sound inner iflt s h i = exec_op_iflt-Sound s h
execute-Sound inner icmpeq s h i = exec_op_icmpeq-Sound s h
execute-Sound inner goto s h i = exec_op_goto-Sound s h
execute-Sound inner ireturn s h i = exec_op_ireturn-Sound s h
execute-Sound inner ior s h i = exec_op_ior-Sound s h
execute-Sound inner invokevirtual s h i = exec_op_invokevirtual-Sound s h
execute-Sound inner in_op s h i = exec_op_in-Sound s h
execute-Sound inner out s h i = exec_op_out-Sound s h
execute-Sound inner err s h i = exec_op_err-Sound s h
execute-Sound inner halt s h i = exec_op_halt-Sound s h
execute-Sound inner newarray s h i = exec_op_newarray-Sound s h
execute-Sound inner iaload s h i = exec_op_iaload-Sound s h
execute-Sound inner iastore s h i = exec_op_iastore-Sound s h
execute-Sound inner gc s h i = exec_op_gc-Sound s h
execute-Sound inner netbind s h i = exec_op_netbind-Sound s h
execute-Sound inner netconnect s h i = exec_op_netconnect-Sound s h
execute-Sound inner netin s h i = exec_op_netin-Sound s h
execute-Sound inner netout s h i = exec_op_netout-Sound s h
execute-Sound inner netclose s h i = exec_op_netclose-Sound s h

dispatch-Sound :
    (inner : M Bool) (o : Option Op) (s : Vm)
    → HasObjects s
    → Sound HasObjects (inner (behind_wide s))
    → Sound HasObjects (dispatch inner o s)
unfolding dispatch
dispatch-Sound inner none s h i = sound h
dispatch-Sound inner (some op) s h i = Sound-bind _ (execute-Sound inner op s h i) λ _ t k. sound k

-- One instruction on a machine whose slots in use hold their objects, with fewer than 2 ^ 32 bytes
-- of code and one unit of fuel more than there are bytes from the program counter on, however the
-- allocator and the network answer and whatever the stack holds: the call does not lack fuel, so
-- every loop and every call of itself in it ends, and where it returns or gives up with a message,
-- the slots in use hold their objects again.
pub step-Sound :
    (fuel : ℕ) (s : Vm)
    → HasObjects s
    → s.cpu.code_mem_size < 0x1_0000_0000
    → s.cpu.code_mem_size ≤ s.cpu.pc + fuel
    → Sound HasObjects (step (suc fuel) s)
unfolding step next_byte
step-Sound zero s h int enough =
    let beyond : ltb s.cpu.pc s.cpu.code_mem_size ≡ false = ground arith in rw beyond sound_fault
step-Sound (suc fuel) s h int enough = elim (Bool-cases (ltb s.cpu.pc s.cpu.code_mem_size)) [
  | inr beyond ↦ rw beyond sound_fault
  | inl inside ↦
      let t = record s { cpu = record (s.cpu) { pc = wrap (s.cpu.pc + 1) } } in
      rw inside (
        dispatch-Sound (step (suc fuel)) (decode (s.cpu.code_mem s.cpu.pc)) t h
          (step-Sound fuel (behind_wide t) h int (ground arith)))
]
