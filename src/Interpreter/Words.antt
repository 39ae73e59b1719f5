-- ===== src/Interpreter/Words.antt =====
-- The instructions of src/interpreter.c that compute on the stack, move variables and jump keep
-- the machine's values words.
use integer_java_virtual_mac.Base.{ℕ, ◌+◌, bit_and, bit_or, arith}
use integer_java_virtual_mac.Base.Word.{wrap, sext8, sext16}
use integer_java_virtual_mac.Base.Bits.{bit_and-lt, bit_or-lt}
use integer_java_virtual_mac.Machine.{Vm}
use integer_java_virtual_mac.Machine.Words.{
  IsWord, HasWords, Typed, Any, Typed-any, typed_rules, read_stack-Typed, with_pc-HasWords,
  wrap-IsWord,
}
use integer_java_virtual_mac.Cpu.Words.{
  stack_push-Typed, stack_pop-Typed, get_constant-Typed, get_local_variable-Typed,
  update_local_variable-Typed, jump-Typed,
}
use integer_java_virtual_mac.Interpreter.{
  next_byte, get_arg_byte, get_arg_short, variable_index, jump_offset, exec_op_nop, exec_op_bipush,
  exec_op_ldc_w, exec_op_iload, exec_op_istore, exec_op_pop, exec_op_dup, exec_op_swap,
  exec_op_iadd, exec_op_isub, exec_op_iand, exec_op_ior, exec_op_iinc, exec_op_ifeq, exec_op_iflt,
  exec_op_icmpeq, exec_op_goto, exec_op_err, exec_op_halt,
}

and_word : (a b : ℕ) → IsWord a → IsWord (bit_and a b)
and_word a b w = bit_and-lt 32 a b w

or_word : (a b : ℕ) → IsWord a → IsWord b → IsWord (bit_or a b)
or_word a b v w = bit_or-lt 32 a b v w

sext8_word : (b : ℕ) → IsWord (sext8 b)
sext8_word b = ground arith

sext16_word : (x : ℕ) → IsWord (sext16 x)
sext16_word x = ground arith

ruleset word_rules = (typed_rules, and_word, or_word, sext8_word, sext16_word)

next_pc-HasWords :
    (s : Vm)
    → HasWords s
    → HasWords (record s { cpu = record (s.cpu) { pc = wrap (s.cpu.pc + 1) } })
next_pc-HasWords s h = with_pc-HasWords s (wrap (s.cpu.pc + 1)) (wrap-IsWord (s.cpu.pc + 1)) h

pub next_byte-Typed : (s : Vm) → HasWords s → Typed Any (next_byte s)
unfolding next_byte
next_byte-Typed s h = search (typed_rules, next_pc-HasWords)

get_arg_byte-Typed : (s : Vm) → HasWords s → Typed Any (get_arg_byte s)
unfolding get_arg_byte
get_arg_byte-Typed s h = search (typed_rules, next_byte-Typed)

pub get_arg_short-Typed : (s : Vm) → HasWords s → Typed IsWord (get_arg_short s)
unfolding get_arg_short
get_arg_short-Typed s h = search (word_rules, next_byte-Typed) depth 20

get_arg_short-Any : (s : Vm) → HasWords s → Typed Any (get_arg_short s)
get_arg_short-Any s h = Typed-any (get_arg_short-Typed s h)

ruleset operation_rules = (
  word_rules, read_stack-Typed, stack_push-Typed, stack_pop-Typed, get_constant-Typed,
  get_local_variable-Typed, update_local_variable-Typed, jump-Typed, get_arg_byte-Typed,
  get_arg_short-Typed,
)

variable_index-Typed : (s : Vm) → HasWords s → Typed Any (variable_index s)
unfolding variable_index
variable_index-Typed s h = search operation_rules

jump_offset-Typed : (s : Vm) → HasWords s → Typed Any (jump_offset s)
unfolding jump_offset
jump_offset-Typed s h = search operation_rules

pub exec_op_nop-Typed : (s : Vm) → HasWords s → Typed Any (exec_op_nop s)
unfolding exec_op_nop
exec_op_nop-Typed s h = search operation_rules depth 20

pub exec_op_bipush-Typed : (s : Vm) → HasWords s → Typed Any (exec_op_bipush s)
unfolding exec_op_bipush
exec_op_bipush-Typed s h = search operation_rules depth 20

pub exec_op_ldc_w-Typed : (s : Vm) → HasWords s → Typed Any (exec_op_ldc_w s)
unfolding exec_op_ldc_w
exec_op_ldc_w-Typed s h = search operation_rules depth 20

pub exec_op_iload-Typed : (s : Vm) → HasWords s → Typed Any (exec_op_iload s)
unfolding exec_op_iload
exec_op_iload-Typed s h = search (operation_rules, variable_index-Typed) depth 20

pub exec_op_istore-Typed : (s : Vm) → HasWords s → Typed Any (exec_op_istore s)
unfolding exec_op_istore
exec_op_istore-Typed s h = search (operation_rules, variable_index-Typed) depth 20

pub exec_op_pop-Typed : (s : Vm) → HasWords s → Typed Any (exec_op_pop s)
unfolding exec_op_pop
exec_op_pop-Typed s h = search operation_rules depth 20

pub exec_op_dup-Typed : (s : Vm) → HasWords s → Typed Any (exec_op_dup s)
unfolding exec_op_dup
exec_op_dup-Typed s h = search operation_rules depth 20

pub exec_op_swap-Typed : (s : Vm) → HasWords s → Typed Any (exec_op_swap s)
unfolding exec_op_swap
exec_op_swap-Typed s h = search operation_rules depth 20

pub exec_op_iadd-Typed : (s : Vm) → HasWords s → Typed Any (exec_op_iadd s)
unfolding exec_op_iadd
exec_op_iadd-Typed s h = search operation_rules depth 20

pub exec_op_isub-Typed : (s : Vm) → HasWords s → Typed Any (exec_op_isub s)
unfolding exec_op_isub
exec_op_isub-Typed s h = search operation_rules depth 20

pub exec_op_iand-Typed : (s : Vm) → HasWords s → Typed Any (exec_op_iand s)
unfolding exec_op_iand
exec_op_iand-Typed s h = search operation_rules depth 20

pub exec_op_ior-Typed : (s : Vm) → HasWords s → Typed Any (exec_op_ior s)
unfolding exec_op_ior
exec_op_ior-Typed s h = search operation_rules depth 20

pub exec_op_iinc-Typed : (s : Vm) → HasWords s → Typed Any (exec_op_iinc s)
unfolding exec_op_iinc
exec_op_iinc-Typed s h = search (operation_rules, get_arg_short-Any) depth 20

pub exec_op_ifeq-Typed : (s : Vm) → HasWords s → Typed Any (exec_op_ifeq s)
unfolding exec_op_ifeq
exec_op_ifeq-Typed s h = search (operation_rules, jump_offset-Typed) depth 20

pub exec_op_iflt-Typed : (s : Vm) → HasWords s → Typed Any (exec_op_iflt s)
unfolding exec_op_iflt
exec_op_iflt-Typed s h = search (operation_rules, jump_offset-Typed) depth 20

pub exec_op_icmpeq-Typed : (s : Vm) → HasWords s → Typed Any (exec_op_icmpeq s)
unfolding exec_op_icmpeq
exec_op_icmpeq-Typed s h = search (operation_rules, jump_offset-Typed) depth 20

pub exec_op_goto-Typed : (s : Vm) → HasWords s → Typed Any (exec_op_goto s)
unfolding exec_op_goto
exec_op_goto-Typed s h = search (operation_rules, jump_offset-Typed) depth 20

pub exec_op_err-Typed : (s : Vm) → HasWords s → Typed Any (exec_op_err s)
unfolding exec_op_err
exec_op_err-Typed s h = search operation_rules depth 20

pub exec_op_halt-Typed : (s : Vm) → HasWords s → Typed Any (exec_op_halt s)
unfolding exec_op_halt
exec_op_halt-Typed s h = search operation_rules depth 20
