-- ===== src/Main/Whole.antt =====
-- `main` of src/main.c on a well-formed binary, from the start of the process to its end.
use native.Mathlib.Decide.{dec_le}
use integer_java_virtual_mac.Base.{
  ℕ, suc, ◌*◌, ◌≤◌, ◌<◌, ◌≡◌, true, false, some, List, [], ◌∷◌, length, arith,
}
use integer_java_virtual_mac.Base.Word.{word_mod}
use integer_java_virtual_mac.Machine.{
  Vm, Error, Run, ok, exit, fault, out_of_fuel, AllocSucceeds, and_then, pure, ◌>>◌,
}
use integer_java_virtual_mac.Marr.Slots.{HasObjects}
use integer_java_virtual_mac.Loader.{File}
use integer_java_virtual_mac.Loader.Binary.{binary, AreWords}
use integer_java_virtual_mac.Init.{get_num_local_vars_main, destroy_ijvm}
use integer_java_virtual_mac.Init.Start.{at_first, ready, init_ijvm-binary}
use integer_java_virtual_mac.Init.Destroy.{released, destroy_ijvm_lem}
use integer_java_virtual_mac.Step.{step, finished}
use integer_java_virtual_mac.Step.Rounds.{
  Rounds, Ran, ran, gave_up, faulted, unfinished, IsReady, run-Ran,
}
use integer_java_virtual_mac.Main.{run_program, with_input, main, interrupt_handler, process}

-- How the process ends, when the program starts in machine `u` and gets at most `n` rounds.
pub data Ended (w n : ℕ) (u : Vm) : Run ℕ → Type 0 where
  -- The program finished, and all memory is released.
  after_run :
      {k : ℕ} {t : Vm}
      → k < n
      → Rounds w k u t
      → finished t ≡ true
      → Ended w n u (ok 0 (released t))
  -- An instruction gave up, and all memory is released.
  after_message :
      {k : ℕ} {e : Error} {t v : Vm}
      → k < n
      → Rounds w k u t
      → finished t ≡ false
      → step (suc w) t ≡ exit e v
      → Ended w n u (ok 0 (released v))
  -- An instruction touched memory outside a block.
  undefined :
      {k : ℕ} {t : Vm}
      → k < n
      → Rounds w k u t
      → finished t ≡ false
      → step (suc w) t ≡ fault
      → Ended w n u fault
  -- The program did not finish in `n` rounds.
  running : {t : Vm} → Rounds w n u t → Ended w n u out_of_fuel
  -- There are more slots for connections than references.
  crowded :
      {r : Run ℕ} {k : ℕ} {t : Vm} → Rounds w k u t → 0x10_0000 < t.net_conn.size → Ended w n u r
  crowded_message :
      {r : Run ℕ} {k : ℕ} {e : Error} {t v : Vm}
      → Rounds w k u t
      → step (suc w) t ≡ exit e v
      → 0x10_0000 < v.net_conn.size
      → Ended w n u r

-- The end of `main`, and of the process, after a run.
run_program-Ended :
    (w n : ℕ) (u : Vm) {r : Run (Unit {0})}
    → Ran w n u r
    → Ended w n u (process (and_then r λ _. destroy_ijvm >> pure 0))
unfolding process interrupt_handler
run_program-Ended w n u (ran {t} lt k f h) = elim (dec_le t.net_conn.size 0x10_0000) [
  | yes small ↦ rw (destroy_ijvm_lem t h small) (after_run lt k f)
  | no many ↦ crowded k (omega arith)
]
run_program-Ended w n u (gave_up {u = v} lt k f g h) = elim (dec_le v.net_conn.size 0x10_0000) [
  | yes small ↦ rw (destroy_ijvm_lem v h small) (after_message lt k f g)
  | no many ↦ crowded_message k g (omega arith)
]
run_program-Ended w n u (faulted lt k f g) = undefined lt k f g
run_program-Ended w n u (unfinished k h) = running k

-- The whole program on a well-formed binary, whose code `main` is scanned with up to 2 ^ 16 local
-- variables, no other argument, a process whose mapped arrays are in order and no failing
-- allocation: the program runs from the machine that `init_ijvm` has made ready, and the process
-- ends with code 0, with all memory released and, for each connection in use that is a client's or
-- a server's, the socket that it was made with shut down and closed (for a server the one that
-- listens), after the program has finished and after a message as well. Otherwise an instruction
-- touched memory outside a block, the program goes on for more than `n` rounds, or more than 2 ^ 20
-- slots for connections came into being.
pub main-Ended :
    (s : Vm) (w n o₁ o₂ vars : ℕ) (ws bs : List ℕ) (f : File) (stdin : List ℕ)
    → HasObjects s
    → AllocSucceeds s
    → AreWords ws
    → 4 * length ws < word_mod
    → length bs < word_mod
    → length bs ≤ w
    → get_num_local_vars_main (at_first s ws bs) ≡ ok vars (at_first s ws bs)
    → vars ≤ 0x10000
    → (size : ℕ) × (mem : ℕ → ℕ) × Ended w n
        (ready (at_first s ws bs) vars size mem [] stdin)
        (process (main (suc w) n (some (binary o₁ o₂ ws bs f) ∷ []) stdin s))
unfolding main with_input run_program
main-Ended s w n o₁ o₂ vars ws bs f stdin h alloc words consts code fuel scan few =
    let (size, mem, e, _, _, _) =
      init_ijvm-binary s o₁ o₂ vars ws bs f [] stdin alloc words consts code scan few in
    let u = ready (at_first s ws bs) vars size mem [] stdin in
    let objects : HasObjects u = record {
      arrays_hold = h.arrays_hold;
      socks_hold = h.socks_hold;
      blocks = record {
        marks_left = h.blocks.marks_left;
        const_left = λ d. cc;
        code_left = λ d. cc;
        stack_left = λ d. cc;
      };
    } in
    let start : IsReady w u = record { objects = objects; code_int = code; fuel = fuel } in
    (size, mem, rw e (run_program-Ended w n u (run-Ran w n u start)))
