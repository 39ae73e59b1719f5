-- ===== src/Tests/Witnesses.antt =====
-- The theorems at concrete machines.
use integer_java_virtual_mac.Base.{
  ℕ, ◌≡◌, refl, true, false, inl, inr, [], ◌∷◌, Bool-cases, ◌==◌, ◌&&◌, if◌then◌else◌, arith,
}
use integer_java_virtual_mac.Machine.{
  free_block, Vm, Run, ok, exit, fault, out_of_fuel, Sock, Block, Ends, too_many_arrays,
  outside_array,
}
use integer_java_virtual_mac.Tests.Programs.{machine}
use integer_java_virtual_mac.Refs.{arr_tag, is_ref, ref_to_index}
use integer_java_virtual_mac.Marr.{
  no_slots, fill, clear, marr_check_marked, marr_get_element, marr_remove_element,
}
use integer_java_virtual_mac.Collector.{
  new_marks, arr_gc, mark_arrays, mark_stack, mark_children, mark_slot, sweep_arrays, sweep_slot,
  arr_remove,
}
use integer_java_virtual_mac.Collector.Mark.{IsHeap, BadMapIndex, refers, stack_refers, Unreferred}
use integer_java_virtual_mac.Collector.Collect.{
  with_marks, Collected, arr_gc-Ends, arr_gc_frees_top,
}
use integer_java_virtual_mac.Claim.{grow}
use integer_java_virtual_mac.Arrays.{new_block, arr_get, arr_set}
use integer_java_virtual_mac.Arrays.Access.{Points, stored, arr_set_lem, arr_set-arr_get}
use integer_java_virtual_mac.Init.{get_num_local_vars_main}
use integer_java_virtual_mac.Init.Vars.{Reads, get_num_local_vars_main-Reads}
use integer_java_virtual_mac.Interpreter.{exec_op_iadd, exec_op_isub, exec_op_iand, exec_op_ior}
use integer_java_virtual_mac.Interpreter.Operands.{replaced, exec_op_iadd_isub_iand_ior}
use integer_java_virtual_mac.Opcode.{decode, op_decode}
use integer_java_virtual_mac.Opcode.Names.{mnemonic, op_decode-decode}

-- A machine with one array of three elements in slot 0, and two words on the stack: `w`, and a
-- number above it.
abbrev heap_machine : ℕ → ℕ → Vm
heap_machine w k =
    let s = machine [] [] in
    record s {
      cpu = record (s.cpu) { sp = k; stack = λ i. if i == 0 then w else 3 };
      arr_mem = fill (grow no_slots 64) 0 (new_block 3);
    }

abbrev the_ref : ℕ
the_ref = 0xaa00_000a

heap_machine-IsHeap : (w k : ℕ) → IsHeap (heap_machine w k).arr_mem
heap_machine-IsHeap w k = λ i h. elim (Bool-cases (i == 0)) [
  | inl e ↦ (ground arith, record { block = new_block 3; held = rw e refl; allocated = refl })
  | inr e ↦ absurd (ground arith)
]

heap_machine-Unreferred : (w k : ℕ) → Unreferred (heap_machine w k) 0
heap_machine-Unreferred w k = λ i b used held e h r. ground arith

arr_gc-Ends_example :
    Ends
      (Collected (with_marks (heap_machine the_ref 1)))
      (BadMapIndex (with_marks (heap_machine the_ref 1)))
      (arr_gc (heap_machine the_ref 1))
arr_gc-Ends_example =
    arr_gc-Ends (heap_machine the_ref 1) refl (λ e. cc) (heap_machine-IsHeap the_ref 1)
      (omega arith)

top_refers : refers (heap_machine the_ref 0) the_ref 0 ≡ true
unfolding is_ref ref_to_index
top_refers = refl

nothing_below : stack_refers (heap_machine the_ref 0) 0 0 0 ≡ false
unfolding stack_refers
nothing_below = refl

-- The machine after a collection that frees slot 0.
abbrev collected_machine : Vm
collected_machine = let s = heap_machine the_ref 0 in record s { arr_mem = clear s.arr_mem 0 }

collected : arr_gc (heap_machine the_ref 0) ≡ ok 1 collected_machine
unfolding arr_gc new_marks free_block integer_java_virtual_mac.Machine.alloc mark_arrays mark_stack
    mark_children mark_slot sweep_arrays sweep_slot arr_remove marr_check_marked marr_get_element
    marr_remove_element
collected = refl

arr_gc_frees_top_example : collected_machine.arr_mem.map 0 ≡ false
arr_gc_frees_top_example =
    arr_gc_frees_top (heap_machine the_ref 0) 0 refl (λ e. cc) (heap_machine-IsHeap the_ref 0)
      (omega arith) (omega arith) top_refers nothing_below (heap_machine-Unreferred the_ref 0)
      collected

the_ref-format : is_ref arr_tag the_ref ≡ true
unfolding is_ref
the_ref-format = refl

the_ref-index : ref_to_index the_ref ≡ 0
unfolding ref_to_index
the_ref-index = refl

the_ref-Points : Points (heap_machine 0 1) the_ref (new_block 3)
the_ref-Points = record {
  format = the_ref-format;
  in_range = omega (arith, the_ref-index);
  in_use = rw the_ref-index refl;
  held = rw the_ref-index refl;
  allocated = refl;
  count_int = omega arith;
}

abbrev stored_machine : Vm
stored_machine = stored (heap_machine 0 1) (ref_to_index the_ref) (new_block 3) 2 42

element_stored : arr_set the_ref 1 42 (heap_machine 0 1) ≡ ok tt stored_machine
element_stored =
    arr_set_lem (heap_machine 0 1) the_ref (new_block 3) the_ref-Points 1 42 (omega arith)

arr_set-arr_get_example :
    arr_get the_ref 1 stored_machine
    ≡ ok
        (if (ref_to_index the_ref == ref_to_index the_ref) && (1 == 1) then 42 else 0)
        stored_machine
arr_set-arr_get_example =
    arr_set-arr_get (heap_machine 0 1) the_ref the_ref (new_block 3) (new_block 3) 1 1 42
      the_ref-Points the_ref-Points (omega arith) (omega arith) element_stored

exec_op_iadd_isub_iand_ior_example :
    let s = heap_machine 0xffff_fffe 1 in
    (exec_op_iadd s ≡ ok tt (replaced s 1))
    × (exec_op_isub s ≡ ok tt (replaced s 0xffff_fffb))
    × (exec_op_iand s ≡ ok tt (replaced s 2))
    × (exec_op_ior s ≡ ok tt (replaced s 0xffff_ffff))
exec_op_iadd_isub_iand_ior_example =
    exec_op_iadd_isub_iand_ior (heap_machine 0xffff_fffe 1)
      (record { two = omega arith; room = omega arith; size_int = omega arith })

get_num_local_vars_main-Reads_example :
    Reads
      (machine (0x15 ∷ 4 ∷ 0xff ∷ []) [])
      (get_num_local_vars_main (machine (0x15 ∷ 4 ∷ 0xff ∷ []) []))
get_num_local_vars_main-Reads_example =
    get_num_local_vars_main-Reads (machine (0x15 ∷ 4 ∷ 0xff ∷ []) [])

op_decode-decode_example : op_decode 0x60 ≡ mnemonic (decode 0x60)
op_decode-decode_example = op_decode-decode 0x60
