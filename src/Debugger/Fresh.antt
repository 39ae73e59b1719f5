-- ===== src/Debugger/Fresh.antt =====
-- `exec_file` of src/ijdb.c on a well-formed binary.
use integer_java_virtual_mac.Base.{
  ℕ, ◌*◌, ◌≤◌, ◌<◌, ◌≡◌, refl, true, false, none, some, List, [], ◌∷◌, ◌++◌, length, ltb,
  if◌then◌else◌, arith,
}
use integer_java_virtual_mac.Base.Word.{word_mod}
use integer_java_virtual_mac.Machine.{Vm, ok, AllocSucceeds, alloc-AllocSucceeds}
use integer_java_virtual_mac.Loader.{File}
use integer_java_virtual_mac.Loader.Binary.{binary, AreWords}
use integer_java_virtual_mac.Init.{get_num_local_vars_main, init_ijvm, destroy_ijvm}
use integer_java_virtual_mac.Init.Start.{at_first, ready, init_ijvm-binary}
use integer_java_virtual_mac.Symbols.{
  Text, Notice, DebugData, init_debug_data, load_debug_data, dup_retry, str_dup,
}
use integer_java_virtual_mac.Symbols.Labels.{Label, AreLabels, labels_size}
use integer_java_virtual_mac.Symbols.Load.{put_block, HasLabels, notice_for, load_debug_data-binary}
use integer_java_virtual_mac.Debugger.{
  Dbg, empty, loaded, program_loaded, debug_notice, init_call_history, init_debugger,
  reset_debug_data, open_file, load_program, give_up_program, save_last_prog, exec_file,
}
use integer_java_virtual_mac.Debugger.Calls.{FuncCall, HasHistory}

-- A program as it is in a binary: its constants, its code and its labels, and the origins of the
-- blocks.
pub record Program : Type 0 where
  pub o₁ : ℕ
  pub o₂ : ℕ
  pub o₃ : ℕ
  pub o₄ : ℕ
  pub consts : List ℕ
  pub code : List ℕ
  pub funcs : List Label
  pub secs : List Label

abbrev pub file_of : Program → File
file_of p = binary p.o₁ p.o₂ p.consts p.code (put_block p.o₃ p.funcs (put_block p.o₄ p.secs []))

-- Its parts fit, and the scan of its code finds `vars` local variables of `main`.
pub record IsProgram (p : Program) (s : Vm) (vars : ℕ) : Type 0 where
  pub words : AreWords p.consts
  pub consts_fit : 4 * length p.consts < word_mod
  pub code_fits : length p.code < word_mod
  pub funcs_are : AreLabels p.funcs
  pub funcs_fit : labels_size p.funcs * 4 < word_mod
  pub secs_are : AreLabels p.secs
  pub secs_fit : labels_size p.secs * 4 < word_mod
  pub scan :
      get_num_local_vars_main (at_first s p.consts p.code) ≡ ok vars (at_first s p.consts p.code)
  pub few : vars ≤ 0x10000

abbrev pub main_call : FuncCall
main_call = record { func_addr = 0; args = [] }

-- The debugger as `init_debugger` leaves it, with the labels `g`.
abbrev pub fresh : Dbg → DebugData → Dbg
fresh d g = record d {
  quit_flag = false;
  prog_state = empty;
  last_prog_path = none;
  brkpts_num = 0;
  brkpts_allocated = 0;
  history_allocated = 2;
  call_history = λ i. if ltb i 2 then 0 else d.call_history i;
  call_history_size = 2;
  call_history_top = 2;
  debug_data = g;
}

pub give_up_program-ok :
    (d : Dbg) (s t : Vm)
    → destroy_ijvm s ≡ ok tt t
    → AllocSucceeds t
    → give_up_program d s ≡ ok (tt, fresh d (init_debug_data d.debug_data)) t
unfolding give_up_program reset_debug_data init_debugger init_call_history
give_up_program-ok d s t e h = rw (e, alloc-AllocSucceeds t h) refl

str_dup-ok : (t : Text) (s : Vm) → AllocSucceeds s → str_dup t s ≡ ok (some t) s
unfolding str_dup dup_retry
str_dup-ok t s h = rw (alloc-AllocSucceeds s h) refl

save_last_prog-ok :
    (path : Text) (d : Dbg) (s : Vm)
    → AllocSucceeds s
    → save_last_prog path d s ≡ ok (tt, record d { last_prog_path = some path }) s
unfolding save_last_prog
save_last_prog-ok path d s h = rw (str_dup-ok path s h, str_dup-ok path s h) refl

pub load_program-ok :
    (path : Text) (file : File) (d : Dbg) (g : DebugData) (n : Notice) (s t : Vm)
    → d.files path ≡ some file
    → init_ijvm (some file) [] d.stdin s ≡ ok 0 t
    → load_debug_data (some file) d.debug_data t ≡ ok (true, g, some n) t
    → load_program (some path) d s
      ≡ ok (true, record d { debug_data = g; printed = d.printed ++ debug_notice n ∷ [] }) t
unfolding load_program open_file
load_program-ok path file d g n s t found e e' = rw (found, e, e') refl

exec_file-ok :
    (path : Text) (file : File) (d : Dbg) (g' : DebugData) (n : Notice) (s u t : Vm)
    → destroy_ijvm s ≡ ok tt u
    → AllocSucceeds u
    → AllocSucceeds t
    → d.files path ≡ some file
    → init_ijvm (some file) [] d.stdin u ≡ ok 0 t
    → load_debug_data (some file) (init_debug_data d.debug_data) t ≡ ok (true, g', some n) t
    → exec_file path d s
      ≡ ok
          (
            tt,
            record (fresh d g') {
              prog_state = loaded;
              last_prog_path = some path;
              printed = (d.printed ++ debug_notice n ∷ []) ++ program_loaded ∷ [];
            },
          )
          t
unfolding exec_file
exec_file-ok path file d g' n s u t gone h h' found e e' =
    let read =
      load_program-ok path file (fresh d (init_debug_data d.debug_data)) g' n u t found e e' in
    let before = record (fresh d g') {
      prog_state = loaded;
      printed = (d.printed ++ debug_notice n ∷ []) ++ program_loaded ∷ [];
    } in
    rw (give_up_program-ok d s u gone h, read, save_last_prog-ok path before t h') refl

-- `file` with the path of a well-formed binary with labels, where no allocation fails and the
-- machine that was there can be given up: whatever the debugger was, the program of the binary is
-- loaded and ready to start in a fresh frame (as for `init_ijvm`), its labels of functions and
-- sections are known, only the call of `main` is in the history, there are no breakpoints, and the
-- path is kept for a restart. The debugger prints that the labels have been loaded or, where there
-- are none of functions, that there are none, then that the program has been loaded, and nothing
-- else.
pub exec_file-IsProgram :
    (path : Text) (p : Program) (d : Dbg) (s u : Vm) (vars : ℕ)
    → destroy_ijvm s ≡ ok tt u
    → AllocSucceeds u
    → d.files path ≡ some (file_of p)
    → IsProgram p u vars
    → (d' : Dbg) × (n : ℕ) × (mem : ℕ → ℕ) × (exec_file path d s
        ≡ ok (tt, d') (ready (at_first u p.consts p.code) vars n mem [] d.stdin))
      × ((d'.prog_state ≡ loaded)
          × (d'.quit_flag ≡ false)
          × (d'.brkpts_num ≡ 0)
          × (d'.last_prog_path ≡ some path))
      × HasHistory d' (main_call ∷ [])
      × HasLabels d'.debug_data.func_label 0 p.funcs
      × HasLabels d'.debug_data.sec_label 0 p.secs
      × (d'.printed ≡ (d.printed ++ debug_notice (notice_for p.funcs) ∷ []) ++ program_loaded ∷ [])
exec_file-IsProgram path p d s u vars gone h found k =
    let tail = put_block p.o₃ p.funcs (put_block p.o₄ p.secs []) in
    let (n, mem, e, zeros, room, int) =
      init_ijvm-binary u p.o₁ p.o₂ vars p.consts p.code tail [] d.stdin h k.words k.consts_fit
        k.code_fits k.scan k.few in
    let t = ready (at_first u p.consts p.code) vars n mem [] d.stdin in
    let (g, e', funcs, secs) =
      load_debug_data-binary t d.debug_data p.o₁ p.o₂ p.o₃ p.o₄ p.consts p.code p.funcs p.secs [] h
        k.consts_fit k.code_fits k.funcs_are k.funcs_fit k.secs_are k.secs_fit in
    (
      record (fresh d g) {
        prog_state = loaded;
        last_prog_path = some path;
        printed = (d.printed ++ debug_notice (notice_for p.funcs) ∷ []) ++ program_loaded ∷ [];
      },
      n,
      mem,
      exec_file-ok path (file_of p) d g (notice_for p.funcs) s u t gone h h found e e',
      (refl, refl, refl, refl),
      record {
        fits = omega arith;
        allocated = refl;
        size_int = omega arith;
        calls = (omega arith, refl, refl, (0, refl, refl));
      },
      funcs,
      secs,
      refl,
    )
