-- ===== src/Tests/FileWitnesses.antt =====
-- The theorems on labels and on loading a program at a concrete binary.
use integer_java_virtual_mac.Base.{
  ℕ, ◌+◌, ◌≤◌, ◌<◌, ◌≡◌, refl, none, some, [], ◌∷◌, ◌++◌, ◌==◌, if◌then◌else◌, length, get_or,
  arith, false, true, ◌⊎◌,
}
use integer_java_virtual_mac.Machine.{dangling, fault, free_block, Vm, ok, out_of_fuel, Lasts}
use integer_java_virtual_mac.Opcode.{decode}
use integer_java_virtual_mac.Util.{get_code_byte, get_code_short}
use integer_java_virtual_mac.Cpu.{cpu_destroy}
use integer_java_virtual_mac.Marr.{marr_destroy}
use integer_java_virtual_mac.Arrays.{arr_destroy, destroy_slots}
use integer_java_virtual_mac.Net.{net_destroy, close_slots}
use integer_java_virtual_mac.Loader.{File, load_bin}
use integer_java_virtual_mac.Loader.Binary.{binary, with_consts, with_code}
use integer_java_virtual_mac.Loader.Accepts.{AreBytes, IsBinary, load_bin-accepts}
use integer_java_virtual_mac.Init.{
  get_num_local_vars_main, scan_code, scan_op, scan_variable, scan_index, count_variable, init_ijvm,
  destroy_ijvm,
}
use integer_java_virtual_mac.Init.Start.{at_first, ready, init_ijvm-binary}
use integer_java_virtual_mac.Symbols.{
  DebugData, SymbolBlock, symbols_loaded, load_debug_data, init_debug_data, read_name, c_string,
}
use integer_java_virtual_mac.Symbols.Names.{reader}
use integer_java_virtual_mac.Symbols.Load.{HasLabels, load_debug_data-binary}
use integer_java_virtual_mac.Symbols.Cut.{read_name-Lasts}
use integer_java_virtual_mac.Debugger.{
  Dbg, empty, loaded, program_loaded, debug_notice, not_loaded, cmd_run, addr_to_func_name,
  exec_command, exec_file, cmd_decoder, codes, restart_debugger, exec_break, exec_input, exec_info,
}
use integer_java_virtual_mac.Debugger.Calls.{HasHistory}
use integer_java_virtual_mac.Debugger.Backtrace.{with_printed}
use integer_java_virtual_mac.Debugger.Names.{addr_to_func_name-inside}
use integer_java_virtual_mac.Debugger.Idle.{idle_run, exec_command-Idle}
use integer_java_virtual_mac.Debugger.Parts.{if_spare, cmd_decoder_lem}
use integer_java_virtual_mac.Debugger.Dangling.{IsBare, exec_file-dangling}
use integer_java_virtual_mac.Debugger.Fresh.{
  Program, IsProgram, file_of, main_call, exec_file-IsProgram,
}
use integer_java_virtual_mac.Debugger.Restart.{reloaded, restart_debugger-IsProgram}
use integer_java_virtual_mac.Tests.Programs.{machine}
use integer_java_virtual_mac.Tests.DebugWitnesses.{debugger, in_method}

-- Two functions `a` and `b`, a section `c`, and code that halts.
abbrev program : Program
program = record {
  o₁ = 0;
  o₂ = 0;
  o₃ = 0;
  o₄ = 0;
  consts = 4 ∷ [];
  code = 0xff ∷ [];
  funcs = record { at = 0; name = 97 ∷ [] } ∷ record { at = 4; name = 98 ∷ [] } ∷ [];
  secs = record { at = 2; name = 99 ∷ [] } ∷ [];
}

abbrev running : Vm
running = machine [] []

-- Its memory is released.
abbrev blank : Vm
blank = record running {
  cpu = record (running.cpu) {
    const_block = dangling;
    code_block = dangling;
    stack_block = dangling;
  };
  marked_arrays = dangling;
}

no_variables :
    get_num_local_vars_main (at_first blank (4 ∷ []) (0xff ∷ []))
    ≡ ok 0 (at_first blank (4 ∷ []) (0xff ∷ []))
unfolding get_num_local_vars_main scan_code scan_op scan_variable scan_index count_variable
    get_code_byte get_code_short decode
no_variables = refl

program-IsProgram : IsProgram program blank 0
program-IsProgram = record {
  words = (omega arith, tt);
  consts_fit = omega arith;
  code_fits = omega arith;
  funcs_are = (omega arith, (λ e. omega arith, tt), (omega arith, (λ e. omega arith, tt), tt));
  funcs_fit = omega arith;
  secs_are = (omega arith, (λ e. omega arith, tt), tt);
  secs_fit = omega arith;
  scan = no_variables;
  few = omega arith;
}

init_ijvm-binary_example :
    (n : ℕ) × (mem : ℕ → ℕ) × (init_ijvm
        (some (binary 0 0 (4 ∷ []) (0xff ∷ []) []))
        []
        (7 ∷ [])
        blank
      ≡ ok 0 (ready (at_first blank (4 ∷ []) (0xff ∷ [])) 0 n mem [] (7 ∷ [])))
    × ((j : ℕ) → j < 0 → mem j ≡ 0)
    × (0 + 256 ≤ n)
    × (n < 0x8000_0000)
init_ijvm-binary_example =
    init_ijvm-binary blank 0 0 0 (4 ∷ []) (0xff ∷ []) [] [] (7 ∷ []) refl (omega arith, tt)
      (omega arith) (omega arith) no_variables (omega arith)

load_debug_data-binary_example :
    (g : DebugData) × (load_debug_data
        (some (file_of program))
        (init_debug_data (debugger [] 0).debug_data)
        blank
      ≡ ok (true, g, some symbols_loaded) blank)
    × HasLabels g.func_label 0 program.funcs
    × HasLabels g.sec_label 0 program.secs
load_debug_data-binary_example =
    load_debug_data-binary blank (debugger [] 0).debug_data 0 0 0 0 program.consts program.code
      program.funcs program.secs [] refl (omega arith) (omega arith) program-IsProgram.funcs_are
      (omega arith) program-IsProgram.secs_are (omega arith)

-- A debugger without a program that can open the binary as `p`.
abbrev idle : Dbg
idle = record (debugger [] 0) {
  prog_state = empty;
  files = λ path. if length path == 1 then some (file_of program) else none;
}

running_is_released : destroy_ijvm running ≡ ok tt blank
unfolding destroy_ijvm net_destroy arr_destroy cpu_destroy free_block destroy_slots close_slots
    marr_destroy
running_is_released = refl

exec_file-IsProgram_example :
    (d' : Dbg) × (n : ℕ) × (mem : ℕ → ℕ) × (exec_file (112 ∷ []) idle running
      ≡ ok (tt, d') (ready (at_first blank program.consts program.code) 0 n mem [] []))
    × ((d'.prog_state ≡ loaded)
        × (d'.quit_flag ≡ false)
        × (d'.brkpts_num ≡ 0)
        × (d'.last_prog_path ≡ some (112 ∷ [])))
    × HasHistory d' (main_call ∷ [])
    × HasLabels d'.debug_data.func_label 0 program.funcs
    × HasLabels d'.debug_data.sec_label 0 program.secs
    × (d'.printed ≡ ([] ++ debug_notice symbols_loaded ∷ []) ++ program_loaded ∷ [])
exec_file-IsProgram_example =
    exec_file-IsProgram (112 ∷ []) program idle running blank 0 running_is_released refl refl
      program-IsProgram

exec_command-Idle_example :
    exec_command 1 1 cmd_run idle blank ≡ ok (tt, with_printed idle ([] ++ not_loaded ∷ [])) blank
exec_command-Idle_example = exec_command-Idle 1 1 cmd_run not_loaded idle blank refl idle_run

cmd_decoder_lem_example :
    (cmd_decoder 1 1 (codes "break" ++ 32 ∷ 97 ∷ []) ≡ if_spare 7 (exec_break (97 ∷ [])))
    × (cmd_decoder 1 1 (codes "input" ++ 32 ∷ 97 ∷ []) ≡ if_spare 7 (exec_input (97 ∷ [])))
    × (cmd_decoder 1 1 (codes "file" ++ 32 ∷ 97 ∷ []) ≡ if_spare 6 (exec_file (97 ∷ [])))
    × (cmd_decoder 1 1 (codes "info" ++ 32 ∷ 97 ∷ []) ≡ if_spare 6 (exec_info (97 ∷ [])))
cmd_decoder_lem_example = cmd_decoder_lem 1 1 97 [] ((λ e. omega arith), tt)

read_name-Lasts_example :
    (read_name 9 (reader (97 ∷ 98 ∷ []) 0 0 0 0 0 (λ _. 0) (λ _. 0) (λ _. 0)) blank ≡ out_of_fuel)
    × Lasts (read_name 5 (reader (97 ∷ 98 ∷ []) 0 0 0 0 0 (λ _. 0) (λ _. 0) (λ _. 0)) blank)
read_name-Lasts_example =
    read_name-Lasts 9 5 (reader (97 ∷ 98 ∷ []) 0 0 0 0 0 (λ _. 0) (λ _. 0) (λ _. 0)) blank refl
      ((λ e. omega arith), ((λ e. omega arith), tt)) (omega arith)

-- The labels of the functions in memory.
abbrev two_labels : SymbolBlock
two_labels = record {
  num = 2;
  addr_bytes = 8;
  addr = λ i. if i == 0 then 0 else 4;
  names_bytes = 16;
  names = λ i. get_or (97 ∷ 0 ∷ 98 ∷ 0 ∷ []) i 0;
  starts_bytes = 8;
  names_start = λ i. if i == 0 then 0 else 2;
}

abbrev labelled : Dbg
labelled = record idle { debug_data = record { func_label = two_labels; sec_label = two_labels } }

two_labels-HasLabels : HasLabels two_labels 0 program.funcs
unfolding c_string
two_labels-HasLabels = (omega arith, refl, refl, (omega arith, refl, refl, refl))

addr_to_func_name-inside_example : addr_to_func_name 3 labelled blank ≡ ok (97 ∷ [], labelled) blank
addr_to_func_name-inside_example =
    addr_to_func_name-inside labelled blank 3 [] [] (record { at = 0; name = 97 ∷ [] })
      (record { at = 4; name = 98 ∷ [] }) refl two_labels-HasLabels (omega arith) tt (omega arith)
      (omega arith)

running-IsBare : IsBare running
running-IsBare = record {
  arrays = refl;
  conns = refl;
  marks = λ e. cc;
  stack = refl;
  code = refl;
  const = refl;
}

exec_file-dangling_example : exec_file [] idle running ≡ fault
exec_file-dangling_example = exec_file-dangling [] idle running refl running-IsBare refl

-- The program has been loaded before, and its history has two calls.
abbrev run_before : Dbg
run_before = record in_method { last_prog_path = some (112 ∷ []); files = idle.files }

restart_debugger-IsProgram_example :
    (g : DebugData) × (n : ℕ) × (mem : ℕ → ℕ) × (restart_debugger run_before running
      ≡ ok
          (tt, reloaded run_before g symbols_loaded)
          (ready (at_first blank program.consts program.code) 0 n mem [] []))
    × HasLabels g.func_label 0 program.funcs
    × HasLabels g.sec_label 0 program.secs
restart_debugger-IsProgram_example =
    restart_debugger-IsProgram (112 ∷ []) program run_before running blank 0 running_is_released
      refl refl refl program-IsProgram

-- One constant, one byte of code.
abbrev small_file : File
small_file = binary 0 0 (4 ∷ []) (0xff ∷ []) []

small_file-AreBytes : AreBytes small_file
small_file-AreBytes = ground arith

load_bin-accepts_example :
    ((k : IsBinary small_file) × (load_bin (some small_file) blank
        ≡ ok true (with_code (with_consts blank k.consts) k.code)))
    ⊎ (((t : Vm) × (load_bin (some small_file) blank ≡ ok false t)) × (¬ IsBinary small_file))
load_bin-accepts_example = load_bin-accepts blank small_file refl small_file-AreBytes
