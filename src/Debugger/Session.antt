-- ===== src/Debugger/Session.antt =====
-- Loading, stepping and running a program in src/ijdb.c. A step of the machine takes fuel for WIDE,
-- and a run takes fuel for its rounds.
use Prim.Native.String.{String}
use integer_java_virtual_mac.Base.{
  ℕ, zero, suc, ◌+◌, ◌-◌, Bool, false, not, ◌&&◌, ◌||◌, Option, none, some, List, [], ◌∷◌, ◌++◌,
  ◌==◌, if◌then◌else◌,
}
use integer_java_virtual_mac.Base.Word.{wrap, is_neg}
use integer_java_virtual_mac.Machine.{ok, out_of_fuel, read_stack}
use integer_java_virtual_mac.Util.{get_code_byte}
use integer_java_virtual_mac.Opcode.{op_decode}
use integer_java_virtual_mac.Step.{step, finished as has_finished}
use integer_java_virtual_mac.Loader.{File}
use integer_java_virtual_mac.Init.{init_ijvm, destroy_ijvm}
use integer_java_virtual_mac.Symbols.{Text, Notice, str_dup, init_debug_data, load_debug_data}
use integer_java_virtual_mac.Debugger.State.{
  ProgramState, empty, loaded, started, finished, frame_stack, frame_local_vars, no_breakpoints,
  breakpoint_line, stopped_at, step_line, not_running, not_loaded, path_not_saved, program_loaded,
  load_failed, debug_notice, Message, program_restarted, restart_failed,
}
use integer_java_virtual_mac.Debugger.Sequence.{
  D, done, ◌>>=◌, ◌>>◌, on_vm, crash, change, print, read_breakpoint,
}
use integer_java_virtual_mac.Debugger.Labels.{addr_to_func_name, at_breakpoint}
use integer_java_virtual_mac.Debugger.History.{
  init_call_history, create_call_history, print_breakpoint_msg,
}

abbrev pub set_state : ProgramState → D (Unit {0})
set_state p = change (λ d. record d { prog_state = p })

-- `init_debugger`, the last path and the breakpoints included.
unfoldable pub init_debugger : D (Unit {0})
init_debugger = do
  change (λ d. record d { quit_flag = false; prog_state = empty })
  init_call_history
  change (λ d. record d { last_prog_path = none; brkpts_num = 0; brkpts_allocated = 0 })

-- The words of the stack from `i` on.
unfoldable pub stack_words : ℕ → ℕ → D (List ℕ)
stack_words zero i = done []
stack_words (suc n) i = do v ← on_vm (read_stack i); vs ← stack_words n (i + 1); done (v ∷ vs)

unfoldable pub print_frame_stack : D (Unit {0})
print_frame_stack = do
  c ← (λ d s. ok (s.cpu, d) s)
  vs ← stack_words (if is_neg c.sp then 0 else c.sp + 1 - c.fp) c.fp
  print (frame_stack vs)

unfoldable pub print_frame_local_vars : D (Unit {0})
print_frame_local_vars = do
  c ← (λ d s. ok (s.cpu, d) s)
  vs ← stack_words (wrap (c.lv + c.nv) - c.lv) c.lv
  print (frame_local_vars vs)

unfoldable pub print_breakpoints : ℕ → ℕ → D (Unit {0})
print_breakpoints zero i = done tt
print_breakpoints (suc n) i = do
  addr ← read_breakpoint i
  name ← addr_to_func_name addr
  print (breakpoint_line (i + 1) addr name)
  print_breakpoints n (i + 1)

unfoldable pub print_all_breakpoints : D (Unit {0})
print_all_breakpoints d =
    if d.brkpts_num == 0 then print no_breakpoints d else print_breakpoints d.brkpts_num 0 d

-- The mnemonic of the byte at the program counter.
unfoldable pub op_at_pc : D String
op_at_pc = do b ← (λ d s. on_vm (get_code_byte s.cpu.pc) d s); done (op_decode b)

unfoldable pub report_breakpoint : D (Unit {0})
report_breakpoint = do
  id ← at_breakpoint
  if id == 0
      then done tt
      else (do op ← op_at_pc; print_breakpoint_msg id; (λ d s. print (stopped_at s.cpu.pc op) d s))

unfoldable pub dbg_step : ℕ → Bool → D (Unit {0})
dbg_step wides step_log = do
  op ← op_at_pc
  create_call_history
  (if step_log then (λ d s. print (step_line s.cpu.pc op) d s) else done tt)
  on_vm (step wides)
  report_breakpoint

unfoldable pub note_finished : D (Unit {0})
note_finished d s = if has_finished s then set_state finished d s else done tt d s

-- The `do` loop of `dbg_run`.
unfoldable pub run_loop : ℕ → ℕ → D (Unit {0})
run_loop wides zero = λ d s. out_of_fuel
run_loop wides (suc fuel) = do
  dbg_step wides false
  id ← at_breakpoint
  again ← (λ d s. ok (((id == 0) && not (has_finished s)) || d.quit_flag, d) s)
  if again then run_loop wides fuel else done tt

-- What a command prints when the program does not run.
unfoldable pub complain : ProgramState → D (Unit {0})
complain empty = print not_loaded
complain loaded = print not_running
complain started = done tt
complain finished = print not_running

-- `destroy_debug_data` and `init_debug_data`.
unfoldable pub reset_debug_data : D (Unit {0})
reset_debug_data = change (λ d. record d { debug_data = init_debug_data d.debug_data })

-- `fopen` of a path; of NULL it is undefined.
unfoldable pub open_file : Option Text → D (Option File)
open_file none = crash
open_file (some path) = λ d. ok (d.files path, d)

abbrev pub noticed : Option Notice → List Message
noticed none = []
noticed (some n) = debug_notice n ∷ []

-- `init_ijvm(path) == 0 && load_debug_data(path) == true`
unfoldable pub load_program : Option Text → D Bool
load_program path = do
  f ← open_file path
  stdin ← (λ d. ok (d.stdin, d))
  code ← on_vm (init_ijvm f [] stdin)
  if code == 0
      then (do
        g ← (λ d. ok (d.debug_data, d))
        (read, g', printed) ← on_vm (load_debug_data f g)
        change (λ d. record d { debug_data = g'; printed = d.printed ++ noticed printed })
        done read)
      else done false

-- After a program that could not be loaded.
unfoldable pub give_up_program : D (Unit {0})
give_up_program = do on_vm destroy_ijvm; reset_debug_data; init_debugger

unfoldable pub restart_debugger : D (Unit {0})
restart_debugger = do
  on_vm destroy_ijvm
  reset_debug_data
  path ← (λ d. ok (d.last_prog_path, d))
  read ← load_program path
  if read
      then (do print program_restarted; set_state loaded)
      else (do give_up_program; print restart_failed)

-- `str_dup`, whose first copy is not tested before it is copied again.
unfoldable pub save_last_prog : Text → D (Unit {0})
save_last_prog prog_path = do
  copy ← on_vm (str_dup prog_path)
  elim copy [
    | none ↦ crash
    | some t ↦ do
      last ← on_vm (str_dup t)
      change (λ d. record d { last_prog_path = last })
      elim last [ none ↦ print path_not_saved | some _ ↦ done tt ]
  ]

unfoldable pub exec_file : Text → D (Unit {0})
exec_file prog_path = do
  give_up_program
  read ← load_program (some prog_path)
  if read
      then (do print program_loaded; set_state loaded; save_last_prog prog_path)
      else (do print load_failed; give_up_program)
