-- ===== src/Debugger/Prompt.antt =====
-- The prompt of src/ijdb.c. `readline` gives a line or, at the end of its input, NULL.
use integer_java_virtual_mac.Base.{
  ℕ, Bool, true, false, ◌&&◌, Option, none, some, List, [], ◌∷◌, length, ◌==◌, if◌then◌else◌,
}
use integer_java_virtual_mac.Symbols.{Text, str_dup}
use integer_java_virtual_mac.Debugger.State.{undefined_command}
use integer_java_virtual_mac.Debugger.Sequence.{D, done, ◌>>=◌, ◌>>◌, on_vm, crash, print, codes}
use integer_java_virtual_mac.Debugger.Labels.{same_text}
use integer_java_virtual_mac.Debugger.Session.{init_debugger, reset_debug_data, exec_file}
use integer_java_virtual_mac.Debugger.Commands.{
  exec_start, exec_step, exec_continue, exec_run, exec_info, exec_backtrace, exec_break, exec_input,
  exec_help, exec_quit,
}

-- `strtok` with a space as the only separator: the parts that are not empty. `part` is the part
-- that has begun, its last byte first.
abbrev pub reversed : Text → Text → Text
reversed [] acc = acc
reversed (c ∷ t) acc = reversed t (c ∷ acc)

abbrev pub close_part : Text → List Text → List Text
close_part [] parts = parts
close_part (c ∷ t) parts = reversed (c ∷ t) [] ∷ parts

unfoldable pub tokens : Text → Text → List Text
tokens part [] = close_part part []
tokens part (c ∷ t) =
    let cut = tokens [] t in
    let longer = tokens (c ∷ part) t in if c == 32 then close_part part cut else longer

-- A command of the debugger, by the tests of `cmd_decoder`.
pub data Command : Type 0 where
  cmd_step cmd_continue cmd_backtrace cmd_run cmd_start cmd_help cmd_quit : Command
  cmd_info cmd_break cmd_input cmd_file cmd_undefined : Text → Command

abbrev pub has_one : List Text → Bool
has_one (_ ∷ []) = true
has_one _ = false

abbrev pub first_of : List Text → Text
first_of [] = []
first_of (t ∷ _) = t

-- `whole` is the line, `cmd` its first part and `args` the others.
unfoldable pub decode_line : Text → Text → List Text → Command
decode_line whole cmd args =
    if same_text whole (codes "step")
    then cmd_step
    else if same_text whole (codes "continue")
    then cmd_continue
    else if same_text cmd (codes "info") && has_one args
    then cmd_info (first_of args)
    else if same_text whole (codes "backtrace")
    then cmd_backtrace
    else if same_text cmd (codes "break") && has_one args
    then cmd_break (first_of args)
    else if same_text whole (codes "run")
    then cmd_run
    else if same_text cmd (codes "input") && has_one args
    then cmd_input (first_of args)
    else if same_text cmd (codes "file") && has_one args
    then cmd_file (first_of args)
    else if same_text whole (codes "start")
    then cmd_start
    else if same_text whole (codes "help")
    then cmd_help
    else if same_text whole (codes "quit")
    then cmd_quit
    else cmd_undefined cmd

unfoldable pub exec_command : ℕ → ℕ → Command → D (Unit {0})
exec_command wides fuel cmd_step = exec_step wides fuel
exec_command wides fuel cmd_continue = exec_continue wides fuel
exec_command wides fuel cmd_backtrace = exec_backtrace
exec_command wides fuel cmd_run = exec_run wides fuel
exec_command wides fuel cmd_start = exec_start
exec_command wides fuel cmd_help = exec_help
exec_command wides fuel cmd_quit = exec_quit
exec_command wides fuel (cmd_info about) = exec_info about
exec_command wides fuel (cmd_break offset) = exec_break offset
exec_command wides fuel (cmd_input path) = exec_input path
exec_command wides fuel (cmd_file path) = exec_file path
exec_command wides fuel (cmd_undefined cmd) = print (undefined_command cmd)

-- A line of spaces has no first part, and `strcmp` of NULL is undefined.
abbrev pub decode_parts : ℕ → ℕ → Text → List Text → D (Unit {0})
decode_parts wides fuel whole [] = crash
decode_parts wides fuel whole (cmd ∷ args) = exec_command wides fuel (decode_line whole cmd args)

-- `strcpy` copies the line into an array of its length, and writes the final 0 behind the array.
unfoldable pub cmd_decoder : ℕ → ℕ → Text → D (Unit {0})
cmd_decoder wides fuel whole_cmd = λ d.
    if d.spare_byte (length whole_cmd)
    then decode_parts wides fuel whole_cmd (tokens [] whole_cmd) d
    else crash d

abbrev pub decode_copy : ℕ → ℕ → Option Text → D (Unit {0})
decode_copy wides fuel none = crash
decode_copy wides fuel (some t) = cmd_decoder wides fuel t

-- An empty line repeats the last command, if there is one: a copy of it is decoded.
abbrev pub run_line : ℕ → ℕ → Option Text → Text → D (Unit {0})
run_line wides fuel none [] = done tt
run_line wides fuel (some t) [] = do copy ← on_vm (str_dup t); decode_copy wides fuel copy
run_line wides fuel last (c ∷ t) = cmd_decoder wides fuel (c ∷ t)

abbrev pub last_line : Option Text → Text → Option Text
last_line last [] = last
last_line last (c ∷ t) = some (c ∷ t)

-- The `while` loop of `main`. The length of NULL is undefined.
unfoldable pub prompt : ℕ → ℕ → Option Text → List Text → D (Unit {0})
prompt wides fuel last [] = λ d. if d.quit_flag then done tt d else crash d
prompt wides fuel last (line ∷ lines) = λ d.
    let rest = prompt wides fuel (last_line last line) lines in
    if d.quit_flag then done tt d else (run_line wides fuel last line >> rest) d

-- `main`, over the lines that are typed.
unfoldable pub debugger_main : ℕ → ℕ → List Text → D (Unit {0})
debugger_main wides fuel lines = do reset_debug_data; init_debugger; prompt wides fuel none lines
