-- ===== src/Debugger/Follow.antt =====
-- `exec_continue` of src/ijdb.c follows a program to its end.
use mathlib.Core.Path.{subst}
use integer_java_virtual_mac.Base.{
  ℕ, zero, suc, ◌≤◌, ◌<◌, ◌≡◌, ◌≢◌, refl, sym, ap, ◌∙◌, List, Bool, true, false, if◌then◌else◌,
  arith,
}
use integer_java_virtual_mac.Machine.{Vm, ok}
use integer_java_virtual_mac.Step.{step, run, finished as has_finished}
use integer_java_virtual_mac.Debugger.{
  Dbg, ProgramState, started, finished, at_breakpoint, op_at_pc, report_breakpoint, dbg_step,
  run_loop, note_finished, dbg_run, run_or_complain, exec_continue,
}
use integer_java_virtual_mac.Debugger.Calls.{FuncCall, HasHistory}
use integer_java_virtual_mac.Debugger.Breakpoints.{at_breakpoint-Misses}
use integer_java_virtual_mac.Debugger.Moves.{Settings, settings}
use integer_java_virtual_mac.Debugger.Trace.{
  Calls, Recorded, get_code_byte-ok, create_call_history-Recorded,
}

-- No breakpoint is at the program counter.
abbrev pub IsClear : Settings → Vm → Type 0
IsClear c s = (j : ℕ) → 0 ≤ j → j < c.num → c.addrs j ≢ s.cpu.pc

-- An instruction that is carried out from `s` to `u`, with the calls in progress before and after
-- it.
pub record Turn (wides : ℕ) (s : Vm) (cs : List FuncCall) (u : Vm) (cs' : List FuncCall)
    : Type 0 where
  pub inside : s.cpu.pc < s.cpu.code_mem_size
  pub turn : Calls s cs cs'
  pub known : Bool
  pub steps : step wides s ≡ ok known u

-- A program that runs to its end in `n` instructions and meets no breakpoint.
pub data CallTrace (wides : ℕ) (c : Settings)
    : Vm → List FuncCall → ℕ → Vm → List FuncCall → Type 0 where
  last :
      {s u : Vm} {cs cs' : List FuncCall}
      → Turn wides s cs u cs'
      → IsClear c u
      → has_finished u ≡ true
      → CallTrace wides c s cs 1 u cs'
  more :
      {s u t : Vm} {cs cs' cs'' : List FuncCall} {n : ℕ}
      → Turn wides s cs u cs'
      → IsClear c u
      → has_finished u ≡ false
      → CallTrace wides c u cs' n t cs''
      → CallTrace wides c s cs (suc n) t cs''

Recorded-trans :
    (d d' d'' : Dbg) (cs cs' : List FuncCall)
    → Recorded d d' cs
    → Recorded d' d'' cs'
    → Recorded d d'' cs'
Recorded-trans d d' d'' cs cs' f g = record {
  history = g.history;
  same = g.same ∙ f.same;
  quits = g.quits ∙ f.quits;
  prints = g.prints ∙ f.prints;
}

module _ (wides : ℕ) where
  Recorded-at_breakpoint :
      (d d' : Dbg) (u : Vm) (cs : List FuncCall)
      → Recorded d d' cs
      → d.brkpts_num ≤ d.brkpts_allocated
      → IsClear (settings d) u
      → at_breakpoint d' u ≡ ok (0, d') u
  Recorded-at_breakpoint d d' u cs k fits clear =
      let room = subst (λ (c : Settings). c.num ≤ c.allocated) (sym k.same) fits in
      let misses = subst (λ (c : Settings). IsClear c u) (sym k.same) clear in
      at_breakpoint-Misses d' u room misses

  dbg_step-Recorded :
      (d : Dbg) (s u : Vm) (cs cs' : List FuncCall)
      → HasHistory d cs
      → d.brkpts_num ≤ d.brkpts_allocated
      → Turn wides s cs u cs'
      → IsClear (settings d) u
      → (d' : Dbg) × (dbg_step wides false d s ≡ ok (tt, d') u)
        × (at_breakpoint d' u ≡ ok (0, d') u)
        × Recorded d d' cs'
  unfolding dbg_step op_at_pc report_breakpoint
  dbg_step-Recorded d s u cs cs' h fits turn clear =
      let (d', e, k) = create_call_history-Recorded d s cs cs' turn.inside h turn.turn in
      let away = Recorded-at_breakpoint d d' u cs' k fits clear in
      (d', rw (get_code_byte-ok s s.cpu.pc turn.inside, e, turn.steps, away) refl, away, k)

  -- A round that meets no breakpoint.
  run_loop-round :
      (fuel : ℕ) (d d' : Dbg) (s u : Vm) (stop : Bool)
      → dbg_step wides false d s ≡ ok (tt, d') u
      → at_breakpoint d' u ≡ ok (0, d') u
      → has_finished u ≡ stop
      → d'.quit_flag ≡ false
      → run_loop wides (suc fuel) d s ≡ (if stop then ok (tt, d') u else run_loop wides fuel d' u)
  unfolding run_loop
  run_loop-round fuel d d' s u true e away ends goes = rw (e, away, ends, goes) refl
  run_loop-round fuel d d' s u false e away ends goes = rw (e, away, ends, goes) refl

  run_loop-Recorded :
      (fuel n : ℕ) (d : Dbg) (s t : Vm) (cs cs' : List FuncCall)
      → HasHistory d cs
      → d.brkpts_num ≤ d.brkpts_allocated
      → d.quit_flag ≡ false
      → CallTrace wides (settings d) s cs n t cs'
      → n ≤ fuel
      → (d' : Dbg) × (run_loop wides fuel d s ≡ ok (tt, d') t) × Recorded d d' cs'
  unfolding run_loop
  run_loop-Recorded zero n d s t cs cs' h fits goes (last turn clear ends) le = absurd (omega arith)
  run_loop-Recorded zero n d s t cs cs' h fits goes (more turn clear ends w) le =
      absurd (omega arith)
  run_loop-Recorded (suc fuel) n d s t cs cs' h fits goes (last turn clear ends) le =
      let (d', e, away, k) = dbg_step-Recorded d s t cs cs' h fits turn clear in
      (d', run_loop-round fuel d d' s t true e away ends (k.quits ∙ goes), k)
  run_loop-Recorded (suc fuel) (suc n) d s t cs cs'' h fits goes (more {u} {cs'} turn clear ends w)
        le =
      let (d', e, away, k) = dbg_step-Recorded d s u cs cs' h fits turn clear in
      let room = subst (λ (c : Settings). c.num ≤ c.allocated) (sym k.same) fits in
      let rest = subst (λ (c : Settings). CallTrace wides c u cs' n t cs'') (sym k.same) w in
      let (d'', e', k') =
        run_loop-Recorded fuel n d' u t cs' cs'' k.history room (k.quits ∙ goes) rest
          (omega arith) in
      (
        d'',
        run_loop-round fuel d d' s u false e away ends (k.quits ∙ goes) ∙ e',
        Recorded-trans d d' d'' cs' cs'' k k',
      )

  exec_continue-Recorded :
      (d d' : Dbg) (fuel : ℕ) (s t : Vm)
      → d.prog_state ≡ started
      → run_loop wides fuel d s ≡ ok (tt, d') t
      → has_finished t ≡ true
      → exec_continue wides fuel d s ≡ ok (tt, record d' { prog_state = finished }) t
  unfolding exec_continue run_or_complain dbg_run note_finished
  exec_continue-Recorded d d' fuel s t running e ends =
      ap (λ (p : ProgramState). run_or_complain wides fuel false p d s) running ∙ rw (e, ends) refl

  CallTrace-ends :
      (c : Settings) (s t : Vm) (cs cs₁ : List FuncCall) (n : ℕ)
      → CallTrace wides c s cs n t cs₁
      → has_finished t ≡ true
  CallTrace-ends c s t cs cs₁ n (last turn clear ends) = ends
  CallTrace-ends c s t cs cs₁ n (more {u} {cs'} turn clear goes w) = CallTrace-ends c u t _ _ _ w

  -- The program runs in the same way without the debugger.
  CallTrace-run :
      (c : Settings) (s t : Vm) (cs cs₁ : List FuncCall) (n : ℕ)
      → CallTrace wides c s cs n t cs₁
      → has_finished s ≡ false
      → run wides (suc n) s ≡ ok tt t
  unfolding run
  CallTrace-run c s t cs cs₁ n (last turn clear ends) begins = rw (begins, turn.steps, ends) refl
  CallTrace-run c s t cs cs₁ n (more {u} {cs'} turn clear goes w) begins =
      rw (begins, turn.steps) (CallTrace-run c u t _ _ _ w goes)

  -- Take a program that is running, its calls in progress in the history, that runs to its end in
  -- `n` instructions, carrying out each of them, where every INVOKEVIRTUAL is well formed and finds
  -- memory for the history, every IRETURN has a call to return from, no WIDE stands before an
  -- INVOKEVIRTUAL, an IRETURN or another WIDE, no breakpoint is met, the breakpoints lie in their
  -- memory, and the flag to quit is not set. With fuel for the `n` rounds `continue` takes the
  -- machine to the very state in which `run` leaves it, marks the program as finished, and has in
  -- its history the calls that are then in progress. It prints nothing, and does not set the flag
  -- to quit.
  pub exec_continue-run :
      (fuel n : ℕ) (d : Dbg) (s t : Vm) (cs cs' : List FuncCall)
      → HasHistory d cs
      → d.brkpts_num ≤ d.brkpts_allocated
      → d.quit_flag ≡ false
      → d.prog_state ≡ started
      → has_finished s ≡ false
      → CallTrace wides (settings d) s cs n t cs'
      → n ≤ fuel
      → (run wides (suc n) s ≡ ok tt t)
        × ((d' : Dbg) × (exec_continue wides fuel d s ≡ ok (tt, d') t)
            × HasHistory d' cs'
            × (d'.prog_state ≡ finished)
            × (d'.quit_flag ≡ false)
            × (d'.printed ≡ d.printed))
  exec_continue-run fuel n d s t cs cs' h fits goes running begins w le =
      let (d', e, k) = run_loop-Recorded fuel n d s t cs cs' h fits goes w le in
      let ends = CallTrace-ends (settings d) s t cs cs' n w in
      (
        CallTrace-run (settings d) s t cs cs' n w begins,
        (
          record d' { prog_state = finished },
          exec_continue-Recorded d d' fuel s t running e ends,
          record {
            fits = k.history.fits;
            allocated = k.history.allocated;
            size_int = k.history.size_int;
            calls = k.history.calls;
          },
          refl,
          k.quits ∙ goes,
          k.prints,
        ),
      )
