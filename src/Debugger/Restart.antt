-- ===== src/Debugger/Restart.antt =====
-- `restart_debugger` of src/ijdb.c on a well-formed binary.
use integer_java_virtual_mac.Base.{ℕ, ◌≡◌, refl, ap, ◌∙◌, true, Option, some, [], ◌∷◌, ◌++◌}
use integer_java_virtual_mac.Machine.{Vm, ok, AllocSucceeds}
use integer_java_virtual_mac.Init.{destroy_ijvm}
use integer_java_virtual_mac.Init.Start.{at_first, ready, init_ijvm-binary}
use integer_java_virtual_mac.Symbols.{Text, DebugData, Notice, init_debug_data}
use integer_java_virtual_mac.Symbols.Load.{put_block, HasLabels, notice_for, load_debug_data-binary}
use integer_java_virtual_mac.Debugger.{
  Dbg, loaded, program_restarted, debug_notice, reset_debug_data, load_program, restart_debugger,
}
use integer_java_virtual_mac.Debugger.Fresh.{Program, file_of, IsProgram, load_program-ok}

-- The debugger with other labels and a program that is loaded.
abbrev pub reloaded : Dbg → DebugData → Notice → Dbg
reloaded d g n = record d {
  debug_data = g;
  prog_state = loaded;
  printed = (d.printed ++ debug_notice n ∷ []) ++ program_restarted ∷ [];
}

restart_debugger-ok :
    (d : Dbg) (g : DebugData) (n : Notice) (s u t : Vm)
    → destroy_ijvm s ≡ ok tt u
    → load_program d.last_prog_path (record d { debug_data = init_debug_data d.debug_data }) u
      ≡ ok (true, record d { debug_data = g; printed = d.printed ++ debug_notice n ∷ [] }) t
    → restart_debugger d s ≡ ok (tt, reloaded d g n) t
unfolding restart_debugger reset_debug_data
restart_debugger-ok d g n s u t gone e = rw (gone, e) refl

-- A restart, where the file of the last path still is a well-formed binary, no allocation fails and
-- the machine that was there can be given up, loads its program into a fresh frame (as for
-- `init_ijvm`), and its labels. The breakpoints stay, and so does the call history: the calls of
-- the run before are still in it when the program starts again. The debugger prints that the labels
-- have been loaded or, where there are none of functions, that there are none, and then that the
-- program has been loaded again.
pub restart_debugger-IsProgram :
    (path : Text) (p : Program) (d : Dbg) (s u : Vm) (vars : ℕ)
    → destroy_ijvm s ≡ ok tt u
    → AllocSucceeds u
    → d.last_prog_path ≡ some path
    → d.files path ≡ some (file_of p)
    → IsProgram p u vars
    → (g : DebugData) × (n : ℕ) × (mem : ℕ → ℕ) × (restart_debugger d s
        ≡ ok
            (tt, reloaded d g (notice_for p.funcs))
            (ready (at_first u p.consts p.code) vars n mem [] d.stdin))
      × HasLabels g.func_label 0 p.funcs
      × HasLabels g.sec_label 0 p.secs
restart_debugger-IsProgram path p d s u vars gone h last found k =
    let tail = put_block p.o₃ p.funcs (put_block p.o₄ p.secs []) in
    let (n, mem, e, zeros, room, int) =
      init_ijvm-binary u p.o₁ p.o₂ vars p.consts p.code tail [] d.stdin h k.words k.consts_fit
        k.code_fits k.scan k.few in
    let t = ready (at_first u p.consts p.code) vars n mem [] d.stdin in
    let (g, e', funcs, secs) =
      load_debug_data-binary t d.debug_data p.o₁ p.o₂ p.o₃ p.o₄ p.consts p.code p.funcs p.secs [] h
        k.consts_fit k.code_fits k.funcs_are k.funcs_fit k.secs_are k.secs_fit in
    let before = record d { debug_data = init_debug_data d.debug_data } in
    let read =
      ap (λ (q : Option Text). load_program q before u) last
      ∙ load_program-ok path (file_of p) before g (notice_for p.funcs) u t found e e' in
    (g, n, mem, restart_debugger-ok d g (notice_for p.funcs) s u t gone read, funcs, secs)
