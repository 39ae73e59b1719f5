-- ===== src/Debugger/Idle.antt =====
-- The commands of src/ijdb.c while no program is loaded.
use mathlib.Core.Path.{subst}
use integer_java_virtual_mac.Base.{ℕ, ◌≡◌, refl, sym, List, [], ◌∷◌, ◌++◌}
use integer_java_virtual_mac.Machine.{Vm, ok}
use integer_java_virtual_mac.Debugger.{
  Dbg, Message, ProgramState, empty, not_loaded, not_running, program_empty, help_text,
  undefined_command, Command, cmd_step, cmd_continue, cmd_backtrace, cmd_run, cmd_start, cmd_help,
  cmd_info, cmd_break, cmd_input, cmd_undefined, exec_command, exec_step, exec_continue,
  run_or_complain, complain, exec_backtrace, exec_run, exec_start, start_or_complain, exec_info,
  info_about, exec_break, exec_input, input_or_complain, exec_help,
}
use integer_java_virtual_mac.Debugger.Backtrace.{with_printed}

-- A command that neither loads a program nor leaves the debugger, and what is printed for it.
pub data Idle : Command → Message → Type 0 where
  idle_step : Idle cmd_step not_loaded
  idle_continue : Idle cmd_continue not_loaded
  idle_run : Idle cmd_run not_loaded
  idle_start : Idle cmd_start not_loaded
  idle_backtrace : Idle cmd_backtrace not_running
  idle_info : {about : List ℕ} → Idle (cmd_info about) program_empty
  idle_break : {offset : List ℕ} → Idle (cmd_break offset) not_loaded
  idle_input : {path : List ℕ} → Idle (cmd_input path) program_empty
  idle_help : Idle cmd_help help_text
  idle_undefined : {cmd : List ℕ} → Idle (cmd_undefined cmd) (undefined_command cmd)

abbrev without_program : Dbg → Dbg
without_program d = record d { prog_state = empty }

exec_command-without_program :
    (wides fuel : ℕ) (c : Command) (m : Message) (d : Dbg) (s : Vm)
    → Idle c m
    → exec_command wides fuel c (without_program d) s
      ≡ ok (tt, with_printed (without_program d) (d.printed ++ m ∷ [])) s
unfolding exec_command exec_step exec_continue run_or_complain complain exec_backtrace exec_run
    exec_start start_or_complain exec_info info_about exec_break exec_input input_or_complain
    exec_help
exec_command-without_program wides fuel c m d s idle_step = refl
exec_command-without_program wides fuel c m d s idle_continue = refl
exec_command-without_program wides fuel c m d s idle_run = refl
exec_command-without_program wides fuel c m d s idle_start = refl
exec_command-without_program wides fuel c m d s idle_backtrace = refl
exec_command-without_program wides fuel c m d s idle_info = refl
exec_command-without_program wides fuel c m d s idle_break = refl
exec_command-without_program wides fuel c m d s idle_input = refl
exec_command-without_program wides fuel c m d s idle_help = refl
exec_command-without_program wides fuel c m d s idle_undefined = refl

-- While no program is loaded, every command but `file` and `quit` prints one message, the one that
-- belongs to it, and changes nothing else in the debugger and nothing in the machine.
pub exec_command-Idle :
    (wides fuel : ℕ) (c : Command) (m : Message) (d : Dbg) (s : Vm)
    → d.prog_state ≡ empty
    → Idle c m
    → exec_command wides fuel c d s ≡ ok (tt, with_printed d (d.printed ++ m ∷ [])) s
exec_command-Idle wides fuel c m d s e idle =
    subst
      (λ (p : ProgramState).
        exec_command wides fuel c (record d { prog_state = p }) s
        ≡ ok (tt, with_printed (record d { prog_state = p }) (d.printed ++ m ∷ [])) s)
      (sym e) (exec_command-without_program wides fuel c m d s idle)
