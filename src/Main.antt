-- ===== src/Main.antt =====
-- `main` of src/main.c. An argument is what `fopen` gives for it; the times are left out.
pub mod Whole
use integer_java_virtual_mac.Base.{ℕ, Option, none, some, List, [], ◌∷◌, if◌then◌else◌}
use integer_java_virtual_mac.Base.Word.{minus_one, slt}
use integer_java_virtual_mac.Machine.{Run, ok, exit, fault, out_of_fuel, M, pure, ◌>>=◌, ◌>>◌}
use integer_java_virtual_mac.Loader.{File}
use integer_java_virtual_mac.Init.{init_ijvm, destroy_ijvm, set_output, set_input}
use integer_java_virtual_mac.Step.{run}

-- Runs the program that is loaded, and 0.
unfoldable pub run_program : ℕ → ℕ → M ℕ
run_program wides fuel = do run wides fuel; destroy_ijvm; pure 0

-- The file for the output is used if it is the last argument.
unfoldable pub with_output : ℕ → ℕ → List (Option File) → M ℕ
with_output wides fuel (none ∷ []) = pure minus_one
with_output wides fuel (some f ∷ []) = do set_output []; run_program wides fuel
with_output wides fuel _ = run_program wides fuel

unfoldable pub with_input : ℕ → ℕ → List (Option File) → M ℕ
with_input wides fuel [] = run_program wides fuel
with_input wides fuel (none ∷ rest) = pure minus_one
with_input wides fuel (some f ∷ rest) = do set_input f; with_output wides fuel rest

-- The exit code, with the arguments behind the name of the program and the content of `stdin`.
unfoldable pub main : ℕ → ℕ → List (Option File) → List ℕ → M ℕ
main wides fuel [] stdin = pure 1
main wides fuel (binary ∷ rest) stdin = do
  code ← init_ijvm binary [] stdin
  if slt code 0 then pure 1 else with_input wides fuel rest

-- `destroy_ijvm_now` of src/terminate.c, which ends the process with code 0; the handler of
-- interrupts in src/main.c calls it.
unfoldable pub interrupt_handler : M ℕ
interrupt_handler = do destroy_ijvm; pure 0

-- How the process ends: with the code that `main` returns, or after a message. A message inside
-- `destroy_ijvm`, which would call `destroy_ijvm_now` again, stays an `exit`.
unfoldable pub process : Run ℕ → Run ℕ
process (ok code s) = ok code s
process (exit e s) = interrupt_handler s
process fault = fault
process out_of_fuel = out_of_fuel
