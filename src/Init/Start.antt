-- ===== src/Init/Start.antt =====
-- `init_ijvm` of src/init.c on a well-formed binary.
use integer_java_virtual_mac.Base.{ℕ, ◌+◌, ◌*◌, ◌≤◌, ◌<◌, ◌≡◌, refl, some, List, length, false}
use integer_java_virtual_mac.Base.Word.{word_mod}
use integer_java_virtual_mac.Machine.{Vm, ok, AllocSucceeds}
use integer_java_virtual_mac.Loader.{File}
use integer_java_virtual_mac.Loader.Binary.{
  binary, AreWords, with_consts, with_code, load_bin-binary,
}
use integer_java_virtual_mac.Init.{
  get_num_local_vars_main, init_registers, init_cpu_flags, set_output, set_input, init_interpreter,
  init_ijvm,
}
use integer_java_virtual_mac.Init.Frame.{in_main, init_stack-ok}

-- The machine with a binary loaded, at its first instruction.
abbrev pub at_first : Vm → List ℕ → List ℕ → Vm
at_first s ws bs =
    let t = with_code (with_consts s ws) bs in record t { cpu = record (t.cpu) { pc = 0 } }

-- The machine as `main` of the program starts: `n` cells `f` of stack, no flag set, and its files.
abbrev pub ready : Vm → ℕ → ℕ → (ℕ → ℕ) → List ℕ → List ℕ → Vm
ready s vars n f stdout stdin =
    let t = in_main s vars n f in
    record t {
      cpu = record (t.cpu) { error_flag = false; halt_flag = false };
      out_file = stdout;
      in_file = stdin;
      next_op_wide = false;
    }

-- Take a well-formed binary, in whose code the scan finds up to 2 ^ 16 local variables of `main`.
-- Where no allocation fails `init_ijvm` returns 0, and the machine is the one before with the
-- constants and the code in its memory, at the first instruction, in a frame whose local variables
-- are 0, with room for 256 words more in a stack whose size is an `int`, no flag set, the files
-- given, and no WIDE pending.
pub init_ijvm-binary :
    (s : Vm) (o₁ o₂ vars : ℕ) (ws bs : List ℕ) (f : File) (stdout stdin : List ℕ)
    → AllocSucceeds s
    → AreWords ws
    → 4 * length ws < word_mod
    → length bs < word_mod
    → get_num_local_vars_main (at_first s ws bs) ≡ ok vars (at_first s ws bs)
    → vars ≤ 0x10000
    → (n : ℕ) × (mem : ℕ → ℕ) × (init_ijvm (some (binary o₁ o₂ ws bs f)) stdout stdin s
        ≡ ok 0 (ready (at_first s ws bs) vars n mem stdout stdin))
      × ((j : ℕ) → j < vars → mem j ≡ 0)
      × (vars + 256 ≤ n)
      × (n < 0x8000_0000)
unfolding init_ijvm init_registers init_cpu_flags set_output set_input init_interpreter
init_ijvm-binary s o₁ o₂ vars ws bs f stdout stdin h words consts code scan few =
    let (n, mem, e, zeros, room, int) = init_stack-ok (at_first s ws bs) vars h scan few in
    (n, mem, rw (load_bin-binary s o₁ o₂ ws bs f h words consts code, e) refl, zeros, room, int)
