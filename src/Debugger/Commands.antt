-- ===== src/Debugger/Commands.antt =====
-- The commands of src/ijdb.c.
use integer_java_virtual_mac.Base.{
  ℕ, ◌+◌, ◌-◌, ◌*◌, ◌%◌, Bool, true, false, not, ◌&&◌, ◌||◌, Option, none, some, [], ◌∷◌, ◌==◌, ltb,
  leb, if◌then◌else◌,
}
use integer_java_virtual_mac.Base.Word.{minus_one, wrap}
use integer_java_virtual_mac.Machine.{ok, fault, alloc, update}
use integer_java_virtual_mac.Loader.{File}
use integer_java_virtual_mac.Init.{destroy_ijvm, set_output, set_input}
use integer_java_virtual_mac.Symbols.{Text}
use integer_java_virtual_mac.Debugger.State.{
  ProgramState, empty, loaded, started, finished, not_running, not_loaded, program_empty,
  invalid_argument, file_not_opened, output_saved, output_dropped, label_not_found,
  starting_program, input_is, breakpoint_set, starts_at, help_text,
}
use integer_java_virtual_mac.Debugger.Sequence.{
  D, done, ◌>>=◌, ◌>>◌, on_vm, crash, change, print, codes,
}
use integer_java_virtual_mac.Debugger.Labels.{label_name_to_addr, at_breakpoint, same_text}
use integer_java_virtual_mac.Debugger.History.{print_func_calls, print_breakpoint_msg}
use integer_java_virtual_mac.Debugger.Session.{
  set_state, print_frame_stack, print_frame_local_vars, print_all_breakpoints, dbg_step,
  note_finished, run_loop, complain, restart_debugger, reset_debug_data,
}

-- `printf` of a path; of NULL it is undefined.
abbrev pub print_path : Option Text → D (Unit {0})
print_path none = crash
print_path (some t) = print (starting_program t)

unfoldable pub start_loaded : D (Unit {0})
start_loaded = do
  opens ← (λ d. ok (d.out_file_opens, d))
  (if opens then print output_saved else print output_dropped)
  on_vm (set_output [])
  (λ d. print_path d.last_prog_path d)
  id ← at_breakpoint
  (if id == 0
      then done tt
      else (do print_breakpoint_msg id; (λ d s. print (starts_at s.cpu.pc) d s)))
  set_state started

-- The part of `exec_start` behind a restart.
unfoldable pub start_or_complain : ProgramState → D (Unit {0})
start_or_complain empty = print not_loaded
start_or_complain loaded = start_loaded
start_or_complain started = done tt
start_or_complain finished = done tt

abbrev pub has_started : ProgramState → Bool
has_started empty = false
has_started loaded = false
has_started started = true
has_started finished = true

unfoldable pub exec_start : D (Unit {0})
exec_start = do
  p ← (λ d. ok (d.prog_state, d))
  (if has_started p then restart_debugger else done tt)
  (λ d. start_or_complain d.prog_state d)

-- `dbg_run`
unfoldable pub dbg_run : ℕ → ℕ → Bool → D (Unit {0})
dbg_run wides fuel single_step = do
  (if single_step then dbg_step wides true else run_loop wides fuel)
  note_finished

unfoldable pub run_or_complain : ℕ → ℕ → Bool → ProgramState → D (Unit {0})
run_or_complain wides fuel single_step started = dbg_run wides fuel single_step
run_or_complain wides fuel single_step p = complain p

unfoldable pub exec_step : ℕ → ℕ → D (Unit {0})
exec_step wides fuel d = run_or_complain wides fuel true d.prog_state d

unfoldable pub exec_continue : ℕ → ℕ → D (Unit {0})
exec_continue wides fuel d = run_or_complain wides fuel false d.prog_state d

unfoldable pub exec_run : ℕ → ℕ → D (Unit {0})
exec_run wides fuel = do
  exec_start
  (λ d. elim d.prog_state [ started ↦ dbg_run wides fuel false d | _ ↦ done tt d ])

unfoldable pub info_frame : ProgramState → D (Unit {0})
info_frame started = do print_frame_stack; print_frame_local_vars
info_frame _ = print not_running

unfoldable pub info_about : ProgramState → Text → D (Unit {0})
info_about empty about = print program_empty
info_about p about =
    if same_text about (codes "frame")
    then info_frame p
    else if same_text about (codes "break")
    then print_all_breakpoints
    else print invalid_argument

unfoldable pub exec_info : Text → D (Unit {0})
exec_info about d = info_about d.prog_state about d

unfoldable pub exec_backtrace : D (Unit {0})
exec_backtrace d = if has_started d.prog_state then print_func_calls 0 d else print not_running d

-- `strtol(text, NULL, 0)` and the cast to `uint32_t`: white space, a sign, the prefix of the base,
-- and the digits up to the first other character. A `long` has 64 bits and stops at its limits.
abbrev pub is_space : ℕ → Bool
is_space c = (c == 32) || (leb 9 c && leb c 13)

abbrev pub digit_value : ℕ → ℕ
digit_value c =
    if leb 48 c && leb c 57
    then c - 48
    else if leb 97 c && leb c 122
    then c - 87
    else if leb 65 c && leb c 90
    then c - 55
    else 99

abbrev pub read_digits : ℕ → ℕ → Text → ℕ
read_digits base value [] = value
read_digits base value (c ∷ t) =
    let rest = read_digits base (value * base + digit_value c) t in
    if ltb (digit_value c) base then rest else value

abbrev pub is_x : ℕ → Bool
is_x c = (c == 120) || (c == 88)

-- A prefix without a digit behind it is the number 0.
abbrev pub read_number : Text → ℕ
read_number (z ∷ x ∷ t) =
    if z == 48
    then (if is_x x then read_digits 16 0 t else read_digits 8 0 (x ∷ t))
    else read_digits 10 0 (z ∷ x ∷ t)
read_number t = read_digits 10 0 t

abbrev pub long_max : ℕ
long_max = 0x7fff_ffff_ffff_ffff

abbrev pub positive_word : ℕ → ℕ
positive_word n = if ltb long_max n then minus_one else wrap n

-- The low 32 bits of the smallest `long` are 0, as are those of 2 ^ 63.
abbrev pub negative_word : ℕ → ℕ
negative_word n = if ltb long_max n then 0 else wrap (0x1_0000_0000 - n % 0x1_0000_0000)

abbrev pub read_signed : Text → ℕ
read_signed [] = 0
read_signed (c ∷ t) =
    if c == 45
    then negative_word (read_number t)
    else if c == 43
    then positive_word (read_number t)
    else positive_word (read_number (c ∷ t))

unfoldable pub strtol : Text → ℕ
strtol [] = 0
strtol (c ∷ t) = let rest = strtol t in if is_space c then rest else read_signed (c ∷ t)

-- The address of a breakpoint: a label, or a number.
unfoldable pub break_addr : Text → D ℕ
break_addr offset = do
  addr ← label_name_to_addr offset
  if addr == minus_one
      then (do
        (λ d. if ltb 0 d.debug_data.func_label.num then print label_not_found d else done tt d)
        done (strtol offset))
      else done addr

-- `brkpts.addrs[brkpts.num - 1] = addr`
unfoldable pub put_breakpoint : ℕ → D (Unit {0})
put_breakpoint addr d s =
    if ltb (d.brkpts_num - 1) d.brkpts_allocated
    then ok (tt, record d { brkpts_addrs = update d.brkpts_addrs (d.brkpts_num - 1) addr }) s
    else fault

-- The number of breakpoints grows before there is memory for them, and a failure loses the memory.
unfoldable pub add_breakpoint : Text → D (Unit {0})
add_breakpoint offset = do
  change (λ d. record d { brkpts_num = wrap (d.brkpts_num + 1) })
  enough ← on_vm alloc
  if not enough then change (λ d. record d { brkpts_allocated = 0; quit_flag = true }) else (do
    change (λ d. record d { brkpts_allocated = d.brkpts_num })
    addr ← break_addr offset
    put_breakpoint addr
    (λ d. print (breakpoint_set d.brkpts_num addr) d))

unfoldable pub exec_break : Text → D (Unit {0})
exec_break offset d = elim d.prog_state [ empty ↦ print not_loaded d | _ ↦ add_breakpoint offset d ]

abbrev pub use_input : Text → Option File → D (Unit {0})
use_input path none = print file_not_opened
use_input path (some f) = do on_vm (set_input f); print (input_is path)

unfoldable pub input_or_complain : ProgramState → Text → D (Unit {0})
input_or_complain empty path = print program_empty
input_or_complain loaded path = λ d. use_input path (d.files path) d
input_or_complain started path = λ d. use_input path (d.files path) d
input_or_complain finished path = print not_running

unfoldable pub exec_input : Text → D (Unit {0})
exec_input path d = input_or_complain d.prog_state path d

unfoldable pub exec_help : D (Unit {0})
exec_help = print help_text

unfoldable pub exec_quit : D (Unit {0})
exec_quit = do on_vm destroy_ijvm; reset_debug_data; change (λ d. record d { quit_flag = true })
