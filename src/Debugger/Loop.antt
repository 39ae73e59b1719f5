-- ===== src/Debugger/Loop.antt =====
-- The loop of `dbg_run` of src/ijdb.c.
use integer_java_virtual_mac.Base.{
  ℕ, zero, suc, ◌≤◌, ◌<◌, ◌≡◌, refl, ap, Bool, true, false, not, ◌&&◌, ◌||◌, ◌==◌, ◌⊎◌, inl, inr,
  if◌then◌else◌, arith,
}
use integer_java_virtual_mac.Machine.{
  Vm, Run, Error, ok, exit, fault, out_of_fuel, and_then, Lasts, lasts_exit, lasts_fault,
  lasts_fuel,
}
use integer_java_virtual_mac.Step.{finished as has_finished}
use integer_java_virtual_mac.Debugger.{Dbg, D, done, run_loop}
use integer_java_virtual_mac.Debugger.Breakpoints.{
  FirstBreakpoint, breakpoint, no_breakpoint, at_breakpoint_lem,
}
use integer_java_virtual_mac.Debugger.Moves.{
  Settings, IsDebugged, IsDebugged-trans, Debugged, Debugged-change, debugged, debug_exit,
  debug_fault, debug_fuel,
}
use integer_java_virtual_mac.Debugger.Running.{dbg_step-Runs, at_breakpoint-Runs}

-- A breakpoint at the program counter.
abbrev pub IsHit : Dbg → Vm → Type 0
IsHit d s = (i : ℕ) × (i < d.brkpts_num) × (d.brkpts_addrs i ≡ s.cpu.pc)

-- How the loop may come out.
pub data Continued (wides : ℕ) (d : Dbg) (s : Vm) : Run (Unit {0} × Dbg) → Type 0 where
  stopped :
      {d' : Dbg} {t : Vm}
      → IsDebugged wides d s d' t
      → IsHit d' t ⊎ (has_finished t ≡ true)
      → d'.quit_flag ≡ false
      → Continued wides d s (ok (tt, d') t)
  loop_exit : {e : Error} {t : Vm} → Continued wides d s (exit e t)
  loop_fault : Continued wides d s fault
  loop_fuel : Continued wides d s out_of_fuel

FirstBreakpoint-IsHit :
    (d : Dbg) (s : Vm) (id : ℕ)
    → FirstBreakpoint d s.cpu.pc 0 d.brkpts_num id
    → (id == 0) ≡ false
    → IsHit d s
FirstBreakpoint-IsHit d s id (no_breakpoint _) ne = absurd cc
FirstBreakpoint-IsHit d s id (breakpoint {j} le lt e _) ne = (j, lt, e)

module _ (wides : ℕ) where
  Continued-weaken :
      (d d' : Dbg) (s t : Vm) {r : Run (Unit {0} × Dbg)}
      → IsDebugged wides d s d' t
      → Continued wides d' t r
      → Continued wides d s r
  Continued-weaken d d' s t f (stopped g reason goes) =
      stopped (IsDebugged-trans wides f g) reason goes
  Continued-weaken d d' s t f loop_exit = loop_exit
  Continued-weaken d d' s t f loop_fault = loop_fault
  Continued-weaken d d' s t f loop_fuel = loop_fuel

  Continued-bind :
      (d : Dbg) (s : Vm) {r : Run (Unit {0} × Dbg)} (k : D (Unit {0}))
      → Debugged wides d s r
      → ((d' : Dbg) (t : Vm) → IsDebugged wides d s d' t → Continued wides d' t (k d' t))
      → Continued wides d s (and_then r λ p. k p.1)
  Continued-bind d s k (debugged {a} {d'} {t} f) next = Continued-weaken d d' s t f (next d' t f)
  Continued-bind d s k debug_exit next = loop_exit
  Continued-bind d s k debug_fault next = loop_fault
  Continued-bind d s k debug_fuel next = loop_fuel

  -- The breakpoints stay in their block.
  IsDebugged-fits :
      (d d' : Dbg) (s t : Vm)
      → IsDebugged wides d s d' t
      → d.brkpts_num ≤ d.brkpts_allocated
      → d'.brkpts_num ≤ d'.brkpts_allocated
  IsDebugged-fits d d' s t f fits =
      let e : d'.brkpts_num ≡ d.brkpts_num = ap (λ (c : Settings). c.num) f.same in
      let e' : d'.brkpts_allocated ≡ d.brkpts_allocated =
        ap (λ (c : Settings). c.allocated) f.same in
      omega arith

  -- The test at the end of a round: no breakpoint (`b`) and not finished (`c`), or the flag to quit
  -- (`q`).
  test-Continued :
      (b c q : Bool) (d : Dbg) (s : Vm) (m : D (Unit {0}))
      → (b ≡ false → IsHit d s)
      → has_finished s ≡ c
      → d.quit_flag ≡ q
      → Continued wides d s (m d s)
      → Continued wides d s ((if (b && not c) || q then m else done tt) d s)
  test-Continued false c true d s m hit ends quits rest = rest
  test-Continued false c false d s m hit ends quits rest =
      stopped (Debugged-change wides d d s refl (λ h. h)) (inl (hit refl)) quits
  test-Continued true true true d s m hit ends quits rest = rest
  test-Continued true true false d s m hit ends quits rest =
      stopped (Debugged-change wides d d s refl (λ h. h)) (inr ends) quits
  test-Continued true false q d s m hit ends quits rest = rest

  -- With the breakpoints in the block that was allocated for them, the loop of `dbg_run` may give
  -- up, fault or go on for longer than its fuel. When it returns, a breakpoint is at the program
  -- counter or the program has finished; the flag to quit is not set; the machine got there by
  -- steps of its own, answers of the allocator and garbage collections; and the breakpoints, the
  -- state of the program, its path and its labels are what they were.
  pub run_loop-Continued :
      (fuel : ℕ) (d : Dbg) (s : Vm)
      → d.brkpts_num ≤ d.brkpts_allocated
      → Continued wides d s (run_loop wides fuel d s)
  unfolding run_loop
  run_loop-Continued zero d s fits = loop_fuel
  run_loop-Continued (suc fuel) d s fits =
      Continued-bind d s _ (dbg_step-Runs wides false d s) λ d' t f.
        let fits' = IsDebugged-fits d d' s t f fits in
        let (id, found, first) = at_breakpoint_lem d' t fits' in
        rw found (
          test-Continued (id == 0) (has_finished t) d'.quit_flag d' t (run_loop wides fuel)
            (FirstBreakpoint-IsHit d' t id first) refl refl (run_loop-Continued fuel d' t fits'))

  Lasts-bind :
      {A : Type 0} (d : Dbg) (s : Vm) {r : Run (A × Dbg)} (k : A → D (Unit {0}))
      → d.quit_flag ≡ true
      → Debugged wides d s r
      → ((a : A) (d' : Dbg) (t : Vm) → d'.quit_flag ≡ true → Lasts (k a d' t))
      → Lasts (and_then r λ p. k p.0 p.1)
  Lasts-bind d s k quits (debugged {a} {d'} {t} f) next = next a d' t (f.quits quits)
  Lasts-bind d s k quits debug_exit next = lasts_exit
  Lasts-bind d s k quits debug_fault next = lasts_fault
  Lasts-bind d s k quits debug_fuel next = lasts_fuel

  test-Lasts :
      (b q : Bool) (d : Dbg) (s : Vm) (m : D (Unit {0}))
      → q ≡ true
      → Lasts (m d s)
      → Lasts ((if b || q then m else done tt) d s)
  test-Lasts true q d s m e rest = rest
  test-Lasts false true d s m e rest = rest
  test-Lasts false false d s m e rest = absurd cc

  -- Once the flag to quit is set, as it is when there is no memory for the history, the loop of
  -- `dbg_run` goes on whatever the breakpoints and the program say. It never returns: it gives up,
  -- faults, or outlasts any fuel.
  pub run_loop-Lasts :
      (fuel : ℕ) (d : Dbg) (s : Vm) → d.quit_flag ≡ true → Lasts (run_loop wides fuel d s)
  unfolding run_loop
  run_loop-Lasts zero d s quits = lasts_fuel
  run_loop-Lasts (suc fuel) d s quits =
      Lasts-bind d s _ quits (dbg_step-Runs wides false d s) λ _ d₁ s₁ q₁.
        Lasts-bind d₁ s₁ _ q₁ (at_breakpoint-Runs wides d₁ s₁) λ id d₂ s₂ q₂.
          test-Lasts ((id == 0) && not (has_finished s₂)) d₂.quit_flag d₂ s₂ (run_loop wides fuel)
            q₂ (run_loop-Lasts fuel d₂ s₂ q₂)
