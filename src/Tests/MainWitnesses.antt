-- ===== src/Tests/MainWitnesses.antt =====
-- The theorems on the whole program and on its dump at concrete machines.
use integer_java_virtual_mac.Base.{
  ℕ, ◌≡◌, ◌==◌, ◌++◌, refl, true, [], ◌∷◌, some, if◌then◌else◌, arith,
}
use integer_java_virtual_mac.Machine.{Vm, null, ok}
use integer_java_virtual_mac.Marr.Slots.{HasObjects}
use integer_java_virtual_mac.Opcode.{decode}
use integer_java_virtual_mac.Util.{get_code_byte, get_code_short}
use integer_java_virtual_mac.Loader.Binary.{binary}
use integer_java_virtual_mac.Init.{
  get_num_local_vars_main, scan_code, scan_op, scan_variable, scan_index, count_variable,
}
use integer_java_virtual_mac.Init.Start.{at_first, ready}
use integer_java_virtual_mac.Dump.{Output, text, padded, column, print_cpu_state, print_trace}
use integer_java_virtual_mac.Dump.Numbers.{numbers}
use integer_java_virtual_mac.Dump.Line.{HasFrame, print_cpu_state-print_trace}
use integer_java_virtual_mac.Main.{main, process}
use integer_java_virtual_mac.Main.Whole.{Ended, main-Ended}
use integer_java_virtual_mac.Tests.Programs.{machine}

-- The globals before anything is loaded.
abbrev fresh : Vm
fresh =
    let s = machine [] [] in
    record s {
      cpu = record (s.cpu) { const_block = null; code_block = null; stack_block = null };
      marked_arrays = null;
    }

fresh-HasObjects : HasObjects fresh
fresh-HasObjects = record {
  arrays_hold = λ i used. cc;
  socks_hold = λ i used. cc;
  blocks = record {
    marks_left = λ e. cc;
    const_left = λ e. cc;
    code_left = λ e. cc;
    stack_left = λ e. cc;
  };
}

-- BIPUSH 1, OUT, HALT.
no_variables :
    get_num_local_vars_main (at_first fresh (4 ∷ []) (0x10 ∷ 1 ∷ 0xfd ∷ 0xff ∷ []))
    ≡ ok 0 (at_first fresh (4 ∷ []) (0x10 ∷ 1 ∷ 0xfd ∷ 0xff ∷ []))
unfolding get_num_local_vars_main scan_code scan_op scan_variable scan_index count_variable
    get_code_byte get_code_short decode
no_variables = refl

main-Ended_example :
    (size : ℕ) × (mem : ℕ → ℕ) × Ended 4 9
      (ready (at_first fresh (4 ∷ []) (0x10 ∷ 1 ∷ 0xfd ∷ 0xff ∷ [])) 0 size mem [] (7 ∷ []))
      (process (
        main 5 9 (some (binary 0 0 (4 ∷ []) (0x10 ∷ 1 ∷ 0xfd ∷ 0xff ∷ []) []) ∷ []) (7 ∷ []) fresh))
main-Ended_example =
    main-Ended fresh 4 9 0 0 0 (4 ∷ []) (0x10 ∷ 1 ∷ 0xfd ∷ 0xff ∷ []) [] (7 ∷ []) fresh-HasObjects
      refl (omega arith, tt) (omega arith) (omega arith) (omega arith) no_variables (omega arith)

-- Two words on the stack, the lower one of them a local variable.
abbrev two_words : Vm
two_words =
    let s = machine (0x60 ∷ []) (8 ∷ []) in
    record s {
      cpu = record (s.cpu) { sp = 1; nv = 1; fp = 1; stack = λ i. if i == 0 then 5 else 9 };
    }

two_words-HasFrame : HasFrame two_words 1
two_words-HasFrame = record {
  stack_int = omega arith;
  top = refl;
  word = omega arith;
  fits = omega arith;
  variables = omega arith;
}

print_cpu_state-print_trace_example :
    ((out : Output) × (print_cpu_state true two_words ≡ ok out two_words)
      × (numbers out
          ≡ (4 ∷ 1 ∷ 4096 ∷ 1 ∷ [])
            ++ (0 ∷ 1 ∷ 1 ∷ 0 ∷ 1 ∷ [])
            ++ (8 ∷ [])
            ++ (0x60 ∷ [])
            ++ (9 ∷ [])
            ++ (5 ∷ [])))
    × ((rest : Output) × (print_trace 0 "IADD" two_words
          ≡ ok
              (text "OPC: "
                ∷ padded 0
                ∷ text " OP: "
                ∷ column "IADD"
                ∷ text "PC:"
                ∷ padded two_words.cpu.pc
                ∷ text "  SP:"
                ∷ padded 1
                ∷ text "  FP:"
                ∷ padded 1
                ∷ text "  LV:"
                ∷ padded 0
                ∷ text "  NV:"
                ∷ padded 1
                ∷ rest)
              two_words)
        × (numbers rest ≡ (9 ∷ []) ++ (5 ∷ []) ++ [] ++ []))
print_cpu_state-print_trace_example =
    print_cpu_state-print_trace two_words 1 true 0 "IADD" two_words-HasFrame
