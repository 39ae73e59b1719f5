-- ===== src/Cpu/Words.antt =====
-- The operations of src/cpu.c keep the machine's values words, and give words.
use integer_java_virtual_mac.Base.{ℕ, zero, suc, ◌+◌, length}
use integer_java_virtual_mac.Base.Word.{wrap, sub_word}
use integer_java_virtual_mac.Machine.{Vm}
use integer_java_virtual_mac.Machine.Words.{
  IsWord, HasWords, Typed, Any, Typed-if, typed, typed_exit, typed_fuel, typed_rules, alloc-Typed,
  read_stack-Typed, write_stack-Typed, with_pc-HasWords, with_sp-HasWords, wrap-IsWord,
  sub_word-IsWord,
}
use integer_java_virtual_mac.Claim.Words.{arr_gc-Typed}
use integer_java_virtual_mac.Cpu.{
  octuple_retry, octuple_stack_size, enlarge, stack_push, stack_pop, get_constant,
  get_local_variable, update_local_variable, jump,
}

octuple_retry-Typed : (fuel : ℕ) (s : Vm) → HasWords s → Typed Any (octuple_retry fuel s)
unfolding octuple_retry
octuple_retry-Typed zero s h = typed_fuel
octuple_retry-Typed (suc fuel) s h =
    search (typed_rules, alloc-Typed, arr_gc-Typed, octuple_retry-Typed fuel) depth 20

octuple_stack_size-Typed : (s : Vm) → HasWords s → Typed Any (octuple_stack_size s)
unfolding octuple_stack_size
octuple_stack_size-Typed s h = octuple_retry-Typed (suc (length s.heap_answers)) s h

enlarge-Typed : (fuel : ℕ) (s : Vm) → HasWords s → Typed Any (enlarge fuel s)
unfolding enlarge
enlarge-Typed zero s h = typed_fuel
enlarge-Typed (suc fuel) s h = search (typed_rules, octuple_stack_size-Typed, enlarge-Typed fuel)

pub stack_push-Typed : (e : ℕ) (s : Vm) → IsWord e → HasWords s → Typed Any (stack_push e s)
unfolding stack_push
stack_push-Typed e s w h =
    let raised = with_sp-HasWords s (wrap (s.cpu.sp + 1)) (wrap-IsWord (s.cpu.sp + 1)) h in
    search (typed_rules, write_stack-Typed, enlarge-Typed) depth 10

lowered-HasWords :
    (s : Vm)
    → HasWords s
    → HasWords (record s { cpu = record (s.cpu) { sp = sub_word s.cpu.sp 1 } })
lowered-HasWords s h = with_sp-HasWords s (sub_word s.cpu.sp 1) (sub_word-IsWord s.cpu.sp 1) h

pub stack_pop-Typed : (s : Vm) → HasWords s → Typed IsWord (stack_pop s)
unfolding stack_pop
stack_pop-Typed s h = search (typed_rules, read_stack-Typed, lowered-HasWords) depth 10

pub get_constant-Typed : (i : ℕ) (s : Vm) → HasWords s → Typed IsWord (get_constant i s)
unfolding get_constant
get_constant-Typed i s h = search (typed_rules, h.const_words)

pub get_local_variable-Typed : (i : ℕ) (s : Vm) → HasWords s → Typed IsWord (get_local_variable i s)
unfolding get_local_variable
get_local_variable-Typed i s h = search (typed_rules, read_stack-Typed)

pub update_local_variable-Typed :
    (v i : ℕ) (s : Vm) → IsWord v → HasWords s → Typed Any (update_local_variable v i s)
unfolding update_local_variable
update_local_variable-Typed v i s w h = search (typed_rules, write_stack-Typed)

pub jump-Typed : (offset : ℕ) (s : Vm) → HasWords s → Typed Any (jump offset s)
unfolding jump
jump-Typed offset s h =
    Typed-if _ typed_exit
      (typed tt (with_pc-HasWords s (wrap (s.cpu.pc + offset)) (wrap-IsWord (s.cpu.pc + offset)) h))
