-- ===== src/Interpreter/HostWords.antt =====
-- The instructions of src/interpreter.c on files, arrays and connections keep the machine's values
-- words.
use integer_java_virtual_mac.Base.{ℕ, [], ◌∷◌, List, arith}
use integer_java_virtual_mac.Machine.{Vm}
use integer_java_virtual_mac.Machine.Words.{
  IsWord, AreWords, HasWords, Typed, Any, Typed-then, typed, typed_rules,
}
use integer_java_virtual_mac.Claim.Words.{arr_gc-Typed}
use integer_java_virtual_mac.Cpu.Words.{stack_push-Typed, stack_pop-Typed}
use integer_java_virtual_mac.Arrays.Words.{arr_create-Typed, arr_get-Typed, arr_set-Typed}
use integer_java_virtual_mac.Net.Words.{
  net_bind-Typed, net_connect-Typed, net_recv-Typed, net_send-Typed, net_close-Typed,
}
use integer_java_virtual_mac.Interpreter.Extend.{read_or_zero, rest_of}
use integer_java_virtual_mac.Interpreter.{
  exec_op_in, exec_op_out, exec_op_newarray, exec_op_iaload, exec_op_iastore, exec_op_gc,
  exec_op_netbind, exec_op_netconnect, exec_op_netin, exec_op_netout, exec_op_netclose,
}

ruleset operation_rules = (
  typed_rules, arr_gc-Typed, stack_push-Typed, stack_pop-Typed, arr_create-Typed, arr_get-Typed,
  arr_set-Typed, net_bind-Typed, net_connect-Typed, net_recv-Typed, net_send-Typed, net_close-Typed,
)

read_or_zero-IsWord : (f : List ℕ) → AreWords f → IsWord (read_or_zero f)
read_or_zero-IsWord [] h = omega arith
read_or_zero-IsWord (c ∷ f) (h, hs) = h

rest_of-AreWords : (f : List ℕ) → AreWords f → AreWords (rest_of f)
rest_of-AreWords [] h = tt
rest_of-AreWords (c ∷ f) (h, hs) = hs

pub exec_op_in-Typed : (s : Vm) → HasWords s → Typed Any (exec_op_in s)
unfolding exec_op_in
exec_op_in-Typed s h =
    let t = record s { in_file = rest_of s.in_file } in
    let taken : HasWords t = record {
      pc_word = h.pc_word;
      sp_word = h.sp_word;
      fp_word = h.fp_word;
      lv_word = h.lv_word;
      nv_word = h.nv_word;
      stack_words = h.stack_words;
      const_words = h.const_words;
      code_bytes = h.code_bytes;
      arrays_words = h.arrays_words;
      input_words = rest_of-AreWords s.in_file h.input_words;
    } in
    Typed-then _
      (stack_push-Typed (read_or_zero s.in_file) t (read_or_zero-IsWord s.in_file h.input_words)
        taken)
      λ a u k. typed tt k

pub exec_op_out-Typed : (s : Vm) → HasWords s → Typed Any (exec_op_out s)
unfolding exec_op_out
exec_op_out-Typed s h = search operation_rules depth 20

pub exec_op_newarray-Typed : (s : Vm) → HasWords s → Typed Any (exec_op_newarray s)
unfolding exec_op_newarray
exec_op_newarray-Typed s h = search operation_rules depth 20

pub exec_op_iaload-Typed : (s : Vm) → HasWords s → Typed Any (exec_op_iaload s)
unfolding exec_op_iaload
exec_op_iaload-Typed s h = search operation_rules depth 20

pub exec_op_iastore-Typed : (s : Vm) → HasWords s → Typed Any (exec_op_iastore s)
unfolding exec_op_iastore
exec_op_iastore-Typed s h = search operation_rules depth 20

pub exec_op_gc-Typed : (s : Vm) → HasWords s → Typed Any (exec_op_gc s)
unfolding exec_op_gc
exec_op_gc-Typed s h = search operation_rules depth 20

pub exec_op_netbind-Typed : (s : Vm) → HasWords s → Typed Any (exec_op_netbind s)
unfolding exec_op_netbind
exec_op_netbind-Typed s h = search operation_rules depth 20

pub exec_op_netconnect-Typed : (s : Vm) → HasWords s → Typed Any (exec_op_netconnect s)
unfolding exec_op_netconnect
exec_op_netconnect-Typed s h = search operation_rules depth 20

pub exec_op_netin-Typed : (s : Vm) → HasWords s → Typed Any (exec_op_netin s)
unfolding exec_op_netin
exec_op_netin-Typed s h = search operation_rules depth 20

pub exec_op_netout-Typed : (s : Vm) → HasWords s → Typed Any (exec_op_netout s)
unfolding exec_op_netout
exec_op_netout-Typed s h = search operation_rules depth 20

pub exec_op_netclose-Typed : (s : Vm) → HasWords s → Typed Any (exec_op_netclose s)
unfolding exec_op_netclose
exec_op_netclose-Typed s h = search operation_rules depth 20
