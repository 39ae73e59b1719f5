-- ===== src/Interpreter/Sound.antt =====
-- The instructions of src/interpreter.c but WIDE keep the invariant of the mapped arrays, and end.
use integer_java_virtual_mac.Base.{ℕ}
use integer_java_virtual_mac.Machine.{Vm}
use integer_java_virtual_mac.Marr.Slots.{HasObjects}
use integer_java_virtual_mac.Marr.Sound.{Sound, Sound-bind, sound, sound_rules, read_stack-Sound}
use integer_java_virtual_mac.Collector.Sound.{arr_gc-Sound}
use integer_java_virtual_mac.Cpu.Sound.{
  stack_push-Sound, stack_pop-Sound, get_constant-Sound, get_local_variable-Sound,
  update_local_variable-Sound, jump-Sound,
}
use integer_java_virtual_mac.Arrays.Sound.{arr_create-Sound, arr_get-Sound, arr_set-Sound}
use integer_java_virtual_mac.Net.Sound.{
  net_bind-Sound, net_connect-Sound, net_recv-Sound, net_send-Sound, net_close-Sound,
}
use integer_java_virtual_mac.Interpreter.Extend.{read_or_zero, rest_of}
use integer_java_virtual_mac.Interpreter.{
  next_byte, get_arg_byte, get_arg_short, variable_index, jump_offset, clear_stack, checked_push,
  save_registers, open_frame, exec_op_invokevirtual, exec_op_nop, exec_op_bipush, exec_op_ldc_w,
  exec_op_iload, exec_op_istore, exec_op_pop, exec_op_dup, exec_op_swap, exec_op_iadd, exec_op_isub,
  exec_op_iand, exec_op_ior, exec_op_iinc, exec_op_ifeq, exec_op_iflt, exec_op_icmpeq, exec_op_goto,
  exec_op_ireturn, exec_op_err, exec_op_halt, exec_op_in, exec_op_out, exec_op_newarray,
  exec_op_iaload, exec_op_iastore, exec_op_gc, exec_op_netbind, exec_op_netconnect, exec_op_netin,
  exec_op_netout, exec_op_netclose,
}

pub next_byte-Sound : (s : Vm) → HasObjects s → Sound HasObjects (next_byte s)
unfolding next_byte
next_byte-Sound s h = search sound_rules

get_arg_byte-Sound : (s : Vm) → HasObjects s → Sound HasObjects (get_arg_byte s)
unfolding get_arg_byte
get_arg_byte-Sound s h = search (sound_rules, next_byte-Sound)

get_arg_short-Sound : (s : Vm) → HasObjects s → Sound HasObjects (get_arg_short s)
unfolding get_arg_short
get_arg_short-Sound s h = search (sound_rules, next_byte-Sound) depth 20

ruleset operation_rules = (
  sound_rules, read_stack-Sound, arr_gc-Sound, stack_push-Sound, stack_pop-Sound,
  get_constant-Sound, get_local_variable-Sound, update_local_variable-Sound, jump-Sound,
  arr_create-Sound, arr_get-Sound, arr_set-Sound, net_bind-Sound, net_connect-Sound, net_recv-Sound,
  net_send-Sound, net_close-Sound, get_arg_byte-Sound, get_arg_short-Sound,
)

variable_index-Sound : (s : Vm) → HasObjects s → Sound HasObjects (variable_index s)
unfolding variable_index
variable_index-Sound s h = search operation_rules

jump_offset-Sound : (s : Vm) → HasObjects s → Sound HasObjects (jump_offset s)
unfolding jump_offset
jump_offset-Sound s h = search operation_rules

clear_stack-Sound : (i n : ℕ) (s : Vm) → HasObjects s → Sound HasObjects (clear_stack i n s)
unfolding clear_stack
clear_stack-Sound i n s h = search sound_rules

checked_push-Sound : (e : ℕ) (s : Vm) → HasObjects s → Sound HasObjects (checked_push e s)
unfolding checked_push
checked_push-Sound e s h = search operation_rules

save_registers-Sound : (pc : ℕ) (s : Vm) → HasObjects s → Sound HasObjects (save_registers pc s)
unfolding save_registers
save_registers-Sound pc s h = search (sound_rules, checked_push-Sound) depth 20

open_frame-Sound :
    (args locals pc : ℕ) (s : Vm) → HasObjects s → Sound HasObjects (open_frame args locals pc s)
unfolding open_frame
open_frame-Sound args locals pc s h =
    search (sound_rules, save_registers-Sound, clear_stack-Sound) depth 20

pub exec_op_invokevirtual-Sound :
    (s : Vm) → HasObjects s → Sound HasObjects (exec_op_invokevirtual s)
unfolding exec_op_invokevirtual
exec_op_invokevirtual-Sound s h = search (operation_rules, open_frame-Sound) depth 20

pub exec_op_nop-Sound : (s : Vm) → HasObjects s → Sound HasObjects (exec_op_nop s)
unfolding exec_op_nop
exec_op_nop-Sound s h = search operation_rules depth 20

pub exec_op_bipush-Sound : (s : Vm) → HasObjects s → Sound HasObjects (exec_op_bipush s)
unfolding exec_op_bipush
exec_op_bipush-Sound s h = search operation_rules depth 20

pub exec_op_ldc_w-Sound : (s : Vm) → HasObjects s → Sound HasObjects (exec_op_ldc_w s)
unfolding exec_op_ldc_w
exec_op_ldc_w-Sound s h = search operation_rules depth 20

pub exec_op_iload-Sound : (s : Vm) → HasObjects s → Sound HasObjects (exec_op_iload s)
unfolding exec_op_iload
exec_op_iload-Sound s h = search (operation_rules, variable_index-Sound) depth 20

pub exec_op_istore-Sound : (s : Vm) → HasObjects s → Sound HasObjects (exec_op_istore s)
unfolding exec_op_istore
exec_op_istore-Sound s h = search (operation_rules, variable_index-Sound) depth 20

pub exec_op_pop-Sound : (s : Vm) → HasObjects s → Sound HasObjects (exec_op_pop s)
unfolding exec_op_pop
exec_op_pop-Sound s h = search operation_rules depth 20

pub exec_op_dup-Sound : (s : Vm) → HasObjects s → Sound HasObjects (exec_op_dup s)
unfolding exec_op_dup
exec_op_dup-Sound s h = search operation_rules depth 20

pub exec_op_swap-Sound : (s : Vm) → HasObjects s → Sound HasObjects (exec_op_swap s)
unfolding exec_op_swap
exec_op_swap-Sound s h = search operation_rules depth 20

pub exec_op_iadd-Sound : (s : Vm) → HasObjects s → Sound HasObjects (exec_op_iadd s)
unfolding exec_op_iadd
exec_op_iadd-Sound s h = search operation_rules depth 20

pub exec_op_isub-Sound : (s : Vm) → HasObjects s → Sound HasObjects (exec_op_isub s)
unfolding exec_op_isub
exec_op_isub-Sound s h = search operation_rules depth 20

pub exec_op_iand-Sound : (s : Vm) → HasObjects s → Sound HasObjects (exec_op_iand s)
unfolding exec_op_iand
exec_op_iand-Sound s h = search operation_rules depth 20

pub exec_op_ior-Sound : (s : Vm) → HasObjects s → Sound HasObjects (exec_op_ior s)
unfolding exec_op_ior
exec_op_ior-Sound s h = search operation_rules depth 20

pub exec_op_iinc-Sound : (s : Vm) → HasObjects s → Sound HasObjects (exec_op_iinc s)
unfolding exec_op_iinc
exec_op_iinc-Sound s h = search operation_rules depth 20

pub exec_op_ifeq-Sound : (s : Vm) → HasObjects s → Sound HasObjects (exec_op_ifeq s)
unfolding exec_op_ifeq
exec_op_ifeq-Sound s h = search (operation_rules, jump_offset-Sound) depth 20

pub exec_op_iflt-Sound : (s : Vm) → HasObjects s → Sound HasObjects (exec_op_iflt s)
unfolding exec_op_iflt
exec_op_iflt-Sound s h = search (operation_rules, jump_offset-Sound) depth 20

pub exec_op_icmpeq-Sound : (s : Vm) → HasObjects s → Sound HasObjects (exec_op_icmpeq s)
unfolding exec_op_icmpeq
exec_op_icmpeq-Sound s h = search (operation_rules, jump_offset-Sound) depth 20

pub exec_op_goto-Sound : (s : Vm) → HasObjects s → Sound HasObjects (exec_op_goto s)
unfolding exec_op_goto
exec_op_goto-Sound s h = search (operation_rules, jump_offset-Sound) depth 20

pub exec_op_ireturn-Sound : (s : Vm) → HasObjects s → Sound HasObjects (exec_op_ireturn s)
unfolding exec_op_ireturn
exec_op_ireturn-Sound s h = search operation_rules depth 20

pub exec_op_err-Sound : (s : Vm) → HasObjects s → Sound HasObjects (exec_op_err s)
unfolding exec_op_err
exec_op_err-Sound s h = search operation_rules depth 20

pub exec_op_halt-Sound : (s : Vm) → HasObjects s → Sound HasObjects (exec_op_halt s)
unfolding exec_op_halt
exec_op_halt-Sound s h = search operation_rules depth 20

pub exec_op_in-Sound : (s : Vm) → HasObjects s → Sound HasObjects (exec_op_in s)
unfolding exec_op_in
exec_op_in-Sound s h =
    Sound-bind _
      (stack_push-Sound (read_or_zero s.in_file) (record s { in_file = rest_of s.in_file }) h)
      λ a t k. sound k

pub exec_op_out-Sound : (s : Vm) → HasObjects s → Sound HasObjects (exec_op_out s)
unfolding exec_op_out
exec_op_out-Sound s h = search operation_rules depth 20

pub exec_op_newarray-Sound : (s : Vm) → HasObjects s → Sound HasObjects (exec_op_newarray s)
unfolding exec_op_newarray
exec_op_newarray-Sound s h = search operation_rules depth 20

pub exec_op_iaload-Sound : (s : Vm) → HasObjects s → Sound HasObjects (exec_op_iaload s)
unfolding exec_op_iaload
exec_op_iaload-Sound s h = search operation_rules depth 20

pub exec_op_iastore-Sound : (s : Vm) → HasObjects s → Sound HasObjects (exec_op_iastore s)
unfolding exec_op_iastore
exec_op_iastore-Sound s h = search operation_rules depth 20

pub exec_op_gc-Sound : (s : Vm) → HasObjects s → Sound HasObjects (exec_op_gc s)
unfolding exec_op_gc
exec_op_gc-Sound s h = search operation_rules depth 20

pub exec_op_netbind-Sound : (s : Vm) → HasObjects s → Sound HasObjects (exec_op_netbind s)
unfolding exec_op_netbind
exec_op_netbind-Sound s h = search operation_rules depth 20

pub exec_op_netconnect-Sound : (s : Vm) → HasObjects s → Sound HasObjects (exec_op_netconnect s)
unfolding exec_op_netconnect
exec_op_netconnect-Sound s h = search operation_rules depth 20

pub exec_op_netin-Sound : (s : Vm) → HasObjects s → Sound HasObjects (exec_op_netin s)
unfolding exec_op_netin
exec_op_netin-Sound s h = search operation_rules depth 20

pub exec_op_netout-Sound : (s : Vm) → HasObjects s → Sound HasObjects (exec_op_netout s)
unfolding exec_op_netout
exec_op_netout-Sound s h = search operation_rules depth 20

pub exec_op_netclose-Sound : (s : Vm) → HasObjects s → Sound HasObjects (exec_op_netclose s)
unfolding exec_op_netclose
exec_op_netclose-Sound s h = search operation_rules depth 20
