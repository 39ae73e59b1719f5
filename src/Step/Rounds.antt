-- ===== src/Step/Rounds.antt =====
-- `run` of src/interpreter.c as the sequence of its rounds.
use integer_java_virtual_mac.Base.{
  ℕ, zero, suc, ◌≤◌, ◌<◌, ◌≡◌, refl, Bool, true, false, inl, inr, Bool-cases, arith,
}
use integer_java_virtual_mac.Machine.{Vm, Error, Run, ok, exit, fault, out_of_fuel, and_then}
use integer_java_virtual_mac.Marr.Slots.{HasObjects}
use integer_java_virtual_mac.Marr.Sound.{Sound, sound, sound_exit, sound_fault}
use integer_java_virtual_mac.Step.{step, finished, run}
use integer_java_virtual_mac.Step.Kept.{Keeps, keeps, step-Keeps}
use integer_java_virtual_mac.Step.Sound.{step-Sound}

-- `n` rounds of the loop that all return, from one machine to another.
pub data Rounds (w : ℕ) : ℕ → Vm → Vm → Type 0 where
  here : {s : Vm} → Rounds w 0 s s
  there :
      {n : ℕ} {b : Bool} {s t u : Vm}
      → finished s ≡ false
      → step (suc w) s ≡ ok b t
      → Rounds w n t u
      → Rounds w (suc n) s u

-- How a run of at most `n` rounds ends: with a machine that has finished, inside an instruction
-- that gives up or touches memory outside a block, or after all `n` rounds.
pub data Ran (w n : ℕ) (s : Vm) : Run (Unit {0}) → Type 0 where
  ran :
      {k : ℕ} {t : Vm}
      → k < n
      → Rounds w k s t
      → finished t ≡ true
      → HasObjects t
      → Ran w n s (ok tt t)
  gave_up :
      {k : ℕ} {e : Error} {t u : Vm}
      → k < n
      → Rounds w k s t
      → finished t ≡ false
      → step (suc w) t ≡ exit e u
      → HasObjects u
      → Ran w n s (exit e u)
  faulted :
      {k : ℕ} {t : Vm}
      → k < n
      → Rounds w k s t
      → finished t ≡ false
      → step (suc w) t ≡ fault
      → Ran w n s fault
  unfinished : {t : Vm} → Rounds w n s t → HasObjects t → Ran w n s out_of_fuel

-- The slots in use hold their objects, and `w` is no less than the number of bytes of the code.
pub record IsReady (w : ℕ) (s : Vm) : Type 0 where
  pub objects : HasObjects s
  pub code_int : s.cpu.code_mem_size < 0x1_0000_0000
  pub fuel : s.cpu.code_mem_size ≤ w

module _ (w n : ℕ) (s : Vm) (more : finished s ≡ false) where
  Ran-there :
      {b : Bool} {t : Vm} {r : Run (Unit {0})}
      → step (suc w) s ≡ ok b t
      → Ran w n t r
      → Ran w (suc n) s r
  Ran-there e (ran lt k f h) = ran (omega arith) (there more e k) f h
  Ran-there e (gave_up lt k f g h) = gave_up (omega arith) (there more e k) f g h
  Ran-there e (faulted lt k f g) = faulted (omega arith) (there more e k) f g
  Ran-there e (unfinished k h) = unfinished (there more e k) h

  -- The round that the test of the loop has begun, by the ways the instruction ends.
  Ran-step :
      (r : Run Bool)
      → step (suc w) s ≡ r
      → Sound HasObjects r
      → Keeps s r
      → IsReady w s
      → ((t : Vm) → IsReady w t → Ran w n t (run (suc w) n t))
      → Ran w (suc n) s (and_then r λ _. run (suc w) n)
  Ran-step (ok b t) e (sound h) (keeps k) ready next = Ran-there e (
      next t (record {
        objects = h;
        code_int = rw k.code_size ready.code_int;
        fuel = rw k.code_size ready.fuel;
      }))
  Ran-step (exit error t) e (sound_exit h) k ready next = gave_up (omega arith) here more e h
  Ran-step out_of_fuel e h k ready next = elim h [ ]
  Ran-step fault e sound_fault k ready next = faulted (omega arith) here more e

-- A run of at most `n` rounds, from a machine whose slots in use hold their objects, with fewer
-- than 2 ^ 32 bytes of code and as much fuel for an instruction as there are bytes, is a sequence
-- of fewer than `n` rounds before the one that ends it, or of exactly `n` rounds and no more: it
-- returns only when the test of the loop says so, it gives up with the message of the instruction
-- that did, no instruction lacks fuel, and the slots in use hold their objects at the end, however
-- the allocator and the network answer.
pub run-Ran : (w n : ℕ) (s : Vm) → IsReady w s → Ran w n s (run (suc w) n s)
unfolding run
run-Ran w zero s ready = unfinished here ready.objects
run-Ran w (suc n) s ready = elim (Bool-cases (finished s)) [
  | inl stop ↦ rw stop (ran (omega arith) here stop ready.objects)
  | inr more ↦ rw more (
      Ran-step w n s more (step (suc w) s) refl
        (step-Sound w s ready.objects ready.code_int (omega (arith, ready.fuel)))
        (step-Keeps (suc w) s) ready (run-Ran w n))
]
