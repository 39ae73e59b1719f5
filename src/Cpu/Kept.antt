-- ===== src/Cpu/Kept.antt =====
-- The operations of src/cpu.c leave the program alone.
use integer_java_virtual_mac.Base.{ℕ, zero, suc, length}
use integer_java_virtual_mac.Machine.{Vm}
use integer_java_virtual_mac.Machine.Stays.{
  Stays, fixed, stays_rules, alloc-Stays, read_stack-Stays, write_stack-Stays,
}
use integer_java_virtual_mac.Collector.Kept.{arr_gc-Stays}
use integer_java_virtual_mac.Cpu.{
  octuple_retry, octuple_stack_size, enlarge, stack_push, stack_pop, get_constant,
  get_local_variable, update_local_variable, jump,
}

octuple_retry-Stays : (fuel : ℕ) (s : Vm) → Stays (fixed s) (octuple_retry fuel s)
unfolding octuple_retry
octuple_retry-Stays zero s = search stays_rules
octuple_retry-Stays (suc fuel) s =
    search (stays_rules, alloc-Stays, arr_gc-Stays, octuple_retry-Stays fuel) depth 20

octuple_stack_size-Stays : (s : Vm) → Stays (fixed s) (octuple_stack_size s)
unfolding octuple_stack_size
octuple_stack_size-Stays s = octuple_retry-Stays (suc (length s.heap_answers)) s

enlarge-Stays : (fuel : ℕ) (s : Vm) → Stays (fixed s) (enlarge fuel s)
unfolding enlarge
enlarge-Stays zero s = search stays_rules
enlarge-Stays (suc fuel) s = search (stays_rules, octuple_stack_size-Stays, enlarge-Stays fuel)

pub stack_push-Stays : (e : ℕ) (s : Vm) → Stays (fixed s) (stack_push e s)
unfolding stack_push
stack_push-Stays e s = search (stays_rules, enlarge-Stays, write_stack-Stays)

pub stack_pop-Stays : (s : Vm) → Stays (fixed s) (stack_pop s)
unfolding stack_pop
stack_pop-Stays s = search (stays_rules, read_stack-Stays)

pub get_constant-Stays : (i : ℕ) (s : Vm) → Stays (fixed s) (get_constant i s)
unfolding get_constant
get_constant-Stays i s = search stays_rules

pub get_local_variable-Stays : (i : ℕ) (s : Vm) → Stays (fixed s) (get_local_variable i s)
unfolding get_local_variable
get_local_variable-Stays i s = search (stays_rules, read_stack-Stays)

pub update_local_variable-Stays : (v i : ℕ) (s : Vm) → Stays (fixed s) (update_local_variable v i s)
unfolding update_local_variable
update_local_variable-Stays v i s = search (stays_rules, write_stack-Stays)

pub jump-Stays : (offset : ℕ) (s : Vm) → Stays (fixed s) (jump offset s)
unfolding jump
jump-Stays offset s = search stays_rules
