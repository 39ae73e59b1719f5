-- ===== src/Interpreter/Kept.antt =====
-- The instructions of src/interpreter.c but WIDE leave the program alone.
use integer_java_virtual_mac.Base.{ℕ, refl}
use integer_java_virtual_mac.Machine.{Vm}
use integer_java_virtual_mac.Machine.Stays.{
  Stays, Stays-bind, stays, fixed, stays_rules, read_stack-Stays,
}
use integer_java_virtual_mac.Collector.Kept.{arr_gc-Stays}
use integer_java_virtual_mac.Cpu.Kept.{
  stack_push-Stays, stack_pop-Stays, get_constant-Stays, get_local_variable-Stays,
  update_local_variable-Stays, jump-Stays,
}
use integer_java_virtual_mac.Arrays.Kept.{arr_create-Stays, arr_get-Stays, arr_set-Stays}
use integer_java_virtual_mac.Net.Kept.{
  net_bind-Stays, net_connect-Stays, net_recv-Stays, net_send-Stays, net_close-Stays,
}
use integer_java_virtual_mac.Interpreter.Extend.{read_or_zero, rest_of}
use integer_java_virtual_mac.Interpreter.{
  next_byte, get_arg_byte, get_arg_short, variable_index, jump_offset, clear_stack, checked_push,
  save_registers, open_frame, exec_op_invokevirtual, exec_op_nop, exec_op_bipush, exec_op_ldc_w,
  exec_op_iload, exec_op_istore, exec_op_pop, exec_op_dup, exec_op_swap, exec_op_iadd, exec_op_isub,
  exec_op_iand, exec_op_ior, exec_op_iinc, exec_op_ifeq, exec_op_iflt, exec_op_icmpeq, exec_op_goto,
  exec_op_ireturn, exec_op_err, exec_op_halt, exec_op_in, exec_op_out, exec_op_newarray,
  exec_op_iaload, exec_op_iastore, exec_op_gc, exec_op_netbind, exec_op_netconnect, exec_op_netin,
  exec_op_netout, exec_op_netclose,
}

pub next_byte-Stays : (s : Vm) → Stays (fixed s) (next_byte s)
unfolding next_byte
next_byte-Stays s = search stays_rules

get_arg_byte-Stays : (s : Vm) → Stays (fixed s) (get_arg_byte s)
unfolding get_arg_byte
get_arg_byte-Stays s = search (stays_rules, next_byte-Stays)

get_arg_short-Stays : (s : Vm) → Stays (fixed s) (get_arg_short s)
unfolding get_arg_short
get_arg_short-Stays s = search (stays_rules, next_byte-Stays) depth 20

ruleset operation_rules = (
  stays_rules, read_stack-Stays, arr_gc-Stays, stack_push-Stays, stack_pop-Stays,
  get_constant-Stays, get_local_variable-Stays, update_local_variable-Stays, jump-Stays,
  arr_create-Stays, arr_get-Stays, arr_set-Stays, net_bind-Stays, net_connect-Stays, net_recv-Stays,
  net_send-Stays, net_close-Stays, get_arg_byte-Stays, get_arg_short-Stays,
)

variable_index-Stays : (s : Vm) → Stays (fixed s) (variable_index s)
unfolding variable_index
variable_index-Stays s = search operation_rules

jump_offset-Stays : (s : Vm) → Stays (fixed s) (jump_offset s)
unfolding jump_offset
jump_offset-Stays s = search operation_rules

clear_stack-Stays : (i n : ℕ) (s : Vm) → Stays (fixed s) (clear_stack i n s)
unfolding clear_stack
clear_stack-Stays i n s = search stays_rules

checked_push-Stays : (e : ℕ) (s : Vm) → Stays (fixed s) (checked_push e s)
unfolding checked_push
checked_push-Stays e s = search operation_rules

save_registers-Stays : (pc : ℕ) (s : Vm) → Stays (fixed s) (save_registers pc s)
unfolding save_registers
save_registers-Stays pc s = search (stays_rules, checked_push-Stays) depth 20

open_frame-Stays : (args locals pc : ℕ) (s : Vm) → Stays (fixed s) (open_frame args locals pc s)
unfolding open_frame
open_frame-Stays args locals pc s =
    search (stays_rules, save_registers-Stays, clear_stack-Stays) depth 20

pub exec_op_invokevirtual-Stays : (s : Vm) → Stays (fixed s) (exec_op_invokevirtual s)
unfolding exec_op_invokevirtual
exec_op_invokevirtual-Stays s = search (operation_rules, open_frame-Stays) depth 20

pub exec_op_nop-Stays : (s : Vm) → Stays (fixed s) (exec_op_nop s)
unfolding exec_op_nop
exec_op_nop-Stays s = search operation_rules depth 20

pub exec_op_bipush-Stays : (s : Vm) → Stays (fixed s) (exec_op_bipush s)
unfolding exec_op_bipush
exec_op_bipush-Stays s = search operation_rules depth 20

pub exec_op_ldc_w-Stays : (s : Vm) → Stays (fixed s) (exec_op_ldc_w s)
unfolding exec_op_ldc_w
exec_op_ldc_w-Stays s = search operation_rules depth 20

pub exec_op_iload-Stays : (s : Vm) → Stays (fixed s) (exec_op_iload s)
unfolding exec_op_iload
exec_op_iload-Stays s = search (operation_rules, variable_index-Stays) depth 20

pub exec_op_istore-Stays : (s : Vm) → Stays (fixed s) (exec_op_istore s)
unfolding exec_op_istore
exec_op_istore-Stays s = search (operation_rules, variable_index-Stays) depth 20

pub exec_op_pop-Stays : (s : Vm) → Stays (fixed s) (exec_op_pop s)
unfolding exec_op_pop
exec_op_pop-Stays s = search operation_rules depth 20

pub exec_op_dup-Stays : (s : Vm) → Stays (fixed s) (exec_op_dup s)
unfolding exec_op_dup
exec_op_dup-Stays s = search operation_rules depth 20

pub exec_op_swap-Stays : (s : Vm) → Stays (fixed s) (exec_op_swap s)
unfolding exec_op_swap
exec_op_swap-Stays s = search operation_rules depth 20

pub exec_op_iadd-Stays : (s : Vm) → Stays (fixed s) (exec_op_iadd s)
unfolding exec_op_iadd
exec_op_iadd-Stays s = search operation_rules depth 20

pub exec_op_isub-Stays : (s : Vm) → Stays (fixed s) (exec_op_isub s)
unfolding exec_op_isub
exec_op_isub-Stays s = search operation_rules depth 20

pub exec_op_iand-Stays : (s : Vm) → Stays (fixed s) (exec_op_iand s)
unfolding exec_op_iand
exec_op_iand-Stays s = search operation_rules depth 20

pub exec_op_ior-Stays : (s : Vm) → Stays (fixed s) (exec_op_ior s)
unfolding exec_op_ior
exec_op_ior-Stays s = search operation_rules depth 20

pub exec_op_iinc-Stays : (s : Vm) → Stays (fixed s) (exec_op_iinc s)
unfolding exec_op_iinc
exec_op_iinc-Stays s = search operation_rules depth 20

pub exec_op_ifeq-Stays : (s : Vm) → Stays (fixed s) (exec_op_ifeq s)
unfolding exec_op_ifeq
exec_op_ifeq-Stays s = search (operation_rules, jump_offset-Stays) depth 20

pub exec_op_iflt-Stays : (s : Vm) → Stays (fixed s) (exec_op_iflt s)
unfolding exec_op_iflt
exec_op_iflt-Stays s = search (operation_rules, jump_offset-Stays) depth 20

pub exec_op_icmpeq-Stays : (s : Vm) → Stays (fixed s) (exec_op_icmpeq s)
unfolding exec_op_icmpeq
exec_op_icmpeq-Stays s = search (operation_rules, jump_offset-Stays) depth 20

pub exec_op_goto-Stays : (s : Vm) → Stays (fixed s) (exec_op_goto s)
unfolding exec_op_goto
exec_op_goto-Stays s = search (operation_rules, jump_offset-Stays) depth 20

pub exec_op_ireturn-Stays : (s : Vm) → Stays (fixed s) (exec_op_ireturn s)
unfolding exec_op_ireturn
exec_op_ireturn-Stays s = search operation_rules depth 20

pub exec_op_err-Stays : (s : Vm) → Stays (fixed s) (exec_op_err s)
unfolding exec_op_err
exec_op_err-Stays s = search operation_rules depth 20

pub exec_op_halt-Stays : (s : Vm) → Stays (fixed s) (exec_op_halt s)
unfolding exec_op_halt
exec_op_halt-Stays s = search operation_rules depth 20

pub exec_op_in-Stays : (s : Vm) → Stays (fixed s) (exec_op_in s)
unfolding exec_op_in
exec_op_in-Stays s =
    Stays-bind (fixed s) _
      (stack_push-Stays (read_or_zero s.in_file) (record s { in_file = rest_of s.in_file }))
      λ a t. stays refl

pub exec_op_out-Stays : (s : Vm) → Stays (fixed s) (exec_op_out s)
unfolding exec_op_out
exec_op_out-Stays s = search operation_rules depth 20

pub exec_op_newarray-Stays : (s : Vm) → Stays (fixed s) (exec_op_newarray s)
unfolding exec_op_newarray
exec_op_newarray-Stays s = search operation_rules depth 20

pub exec_op_iaload-Stays : (s : Vm) → Stays (fixed s) (exec_op_iaload s)
unfolding exec_op_iaload
exec_op_iaload-Stays s = search operation_rules depth 20

pub exec_op_iastore-Stays : (s : Vm) → Stays (fixed s) (exec_op_iastore s)
unfolding exec_op_iastore
exec_op_iastore-Stays s = search operation_rules depth 20

pub exec_op_gc-Stays : (s : Vm) → Stays (fixed s) (exec_op_gc s)
unfolding exec_op_gc
exec_op_gc-Stays s = search operation_rules depth 20

pub exec_op_netbind-Stays : (s : Vm) → Stays (fixed s) (exec_op_netbind s)
unfolding exec_op_netbind
exec_op_netbind-Stays s = search operation_rules depth 20

pub exec_op_netconnect-Stays : (s : Vm) → Stays (fixed s) (exec_op_netconnect s)
unfolding exec_op_netconnect
exec_op_netconnect-Stays s = search operation_rules depth 20

pub exec_op_netin-Stays : (s : Vm) → Stays (fixed s) (exec_op_netin s)
unfolding exec_op_netin
exec_op_netin-Stays s = search operation_rules depth 20

pub exec_op_netout-Stays : (s : Vm) → Stays (fixed s) (exec_op_netout s)
unfolding exec_op_netout
exec_op_netout-Stays s = search operation_rules depth 20

pub exec_op_netclose-Stays : (s : Vm) → Stays (fixed s) (exec_op_netclose s)
unfolding exec_op_netclose
exec_op_netclose-Stays s = search operation_rules depth 20
