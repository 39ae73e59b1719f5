-- ===== src/Interpreter/Extend.antt =====
-- The instructions of src/interpreter.c for input and output, arrays and the network. A byte of
-- output is the low byte of a word.
use integer_java_virtual_mac.Base.{ℕ, ◌%◌, List, [], ◌∷◌, ◌++◌}
use integer_java_virtual_mac.Machine.{ok, M, pure, ◌>>=◌, ◌>>◌}
use integer_java_virtual_mac.Cpu.{stack_pop}
use integer_java_virtual_mac.Collector.{arr_gc}
use integer_java_virtual_mac.Arrays.{arr_create, arr_get, arr_set}
use integer_java_virtual_mac.Net.{net_bind, net_connect, net_recv, net_send, net_close}
use integer_java_virtual_mac.Interpreter.Compute.{push}

-- At the end of the input `getc` returns EOF, for which a 0 is pushed.
abbrev pub read_or_zero : List ℕ → ℕ
read_or_zero [] = 0
read_or_zero (c ∷ _) = c

abbrev pub rest_of : List ℕ → List ℕ
rest_of [] = []
rest_of (_ ∷ cs) = cs

unfoldable pub exec_op_in : M (Unit {0})
exec_op_in s = push (read_or_zero s.in_file) (record s { in_file = rest_of s.in_file })

unfoldable pub exec_op_out : M (Unit {0})
exec_op_out = do v ← stack_pop; λ s. ok tt (record s { out_file = s.out_file ++ (v % 256) ∷ [] })

unfoldable pub exec_op_newarray : M (Unit {0})
exec_op_newarray = do count ← stack_pop; r ← arr_create count; push r

unfoldable pub exec_op_iaload : M (Unit {0})
exec_op_iaload = do r ← stack_pop; i ← stack_pop; v ← arr_get r i; push v

unfoldable pub exec_op_iastore : M (Unit {0})
exec_op_iastore = do r ← stack_pop; i ← stack_pop; v ← stack_pop; arr_set r i v

unfoldable pub exec_op_gc : M (Unit {0})
exec_op_gc = do arr_gc; pure tt

unfoldable pub exec_op_netbind : M (Unit {0})
exec_op_netbind = do port ← stack_pop; r ← net_bind port; push r

unfoldable pub exec_op_netconnect : M (Unit {0})
exec_op_netconnect = do port ← stack_pop; host ← stack_pop; r ← net_connect host port; push r

unfoldable pub exec_op_netin : M (Unit {0})
exec_op_netin = do r ← stack_pop; v ← net_recv r; push v

unfoldable pub exec_op_netout : M (Unit {0})
exec_op_netout = do r ← stack_pop; v ← stack_pop; net_send r v

unfoldable pub exec_op_netclose : M (Unit {0})
exec_op_netclose = do r ← stack_pop; net_close r
