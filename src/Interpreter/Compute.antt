-- ===== src/Interpreter/Compute.antt =====
-- The instructions of src/interpreter.c that work on the stack and the local variables.
use integer_java_virtual_mac.Base.{ℕ, ◌+◌, ◌%◌, bit_and, bit_or, if◌then◌else◌}
use integer_java_virtual_mac.Base.Word.{wrap, sub_word, sext8}
use integer_java_virtual_mac.Machine.{M, pure, ◌>>=◌, ◌>>◌, read_stack}
use integer_java_virtual_mac.Cpu.{
  stack_push, stack_pop, get_constant, get_local_variable, update_local_variable,
}
use integer_java_virtual_mac.Interpreter.Args.{get_arg_byte, get_arg_short}

-- A push whose result is not looked at.
abbrev pub push : ℕ → M (Unit {0})
push e = stack_push e >> pure tt

unfoldable pub exec_op_nop : M (Unit {0})
exec_op_nop = pure tt

unfoldable pub exec_op_bipush : M (Unit {0})
exec_op_bipush = do arg ← get_arg_byte; push (sext8 arg)

unfoldable pub exec_op_ldc_w : M (Unit {0})
exec_op_ldc_w = do i ← get_arg_short; v ← get_constant (i % 0x10000); push v

-- The index of a variable: two bytes after WIDE, else one. Both are read as unsigned.
unfoldable pub variable_index : M ℕ
variable_index s =
    if s.next_op_wide then (get_arg_short >>= λ i. pure (i % 0x10000)) s else get_arg_byte s

unfoldable pub exec_op_iload : M (Unit {0})
exec_op_iload = do i ← variable_index; v ← get_local_variable i; push v

unfoldable pub exec_op_istore : M (Unit {0})
exec_op_istore = do v ← stack_pop; i ← variable_index; update_local_variable v i

unfoldable pub exec_op_pop : M (Unit {0})
exec_op_pop = do stack_pop; pure tt

-- The top of the stack is read with no test that there is one.
unfoldable pub exec_op_dup : M (Unit {0})
exec_op_dup = do v ← (λ s. read_stack s.cpu.sp s); push v

unfoldable pub exec_op_swap : M (Unit {0})
exec_op_swap = do b ← stack_pop; a ← stack_pop; push b; push a

unfoldable pub exec_op_iadd : M (Unit {0})
exec_op_iadd = do b ← stack_pop; a ← stack_pop; push (wrap (a + b))

unfoldable pub exec_op_isub : M (Unit {0})
exec_op_isub = do b ← stack_pop; a ← stack_pop; push (sub_word a b)

unfoldable pub exec_op_iand : M (Unit {0})
exec_op_iand = do b ← stack_pop; a ← stack_pop; push (bit_and a b)

unfoldable pub exec_op_ior : M (Unit {0})
exec_op_ior = do b ← stack_pop; a ← stack_pop; push (bit_or a b)

-- Here the two bytes after WIDE are read as a signed index.
unfoldable pub exec_op_iinc : M (Unit {0})
exec_op_iinc = do
  i ← (λ s. if s.next_op_wide then get_arg_short s else get_arg_byte s)
  c ← get_arg_byte
  v ← get_local_variable i
  update_local_variable (wrap (v + sext8 c)) i
