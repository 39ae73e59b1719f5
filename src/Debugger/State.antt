-- ===== src/Debugger/State.antt =====
-- `DebuggerState_t` of include/ijdb.h with the debug data, and what the debugger prints.
use Prim.Native.String.{String}
use integer_java_virtual_mac.Base.{ℕ, Bool, Option, List}
use integer_java_virtual_mac.Loader.{File}
use integer_java_virtual_mac.Symbols.{Text, DebugData, Notice}

-- `EProgramState`
pub data ProgramState : Type 0 where
  empty loaded started finished : ProgramState

-- A line or a part of a line: each constructor is a `printf` of src/ijdb.c with its arguments, and
-- `debug_notice` those of `load_debug_data`.
pub data Message : Type 0 where
  frame_stack frame_local_vars : List ℕ → Message
  no_breakpoints : Message
  breakpoint_line : ℕ → ℕ → Text → Message
  func_call : Option ℕ → ℕ → Text → List ℕ → Message
  breakpoint_msg : ℕ → Message
  stopped_at : ℕ → String → Message
  starts_at : ℕ → Message
  step_line : ℕ → String → Message
  not_running not_loaded program_empty invalid_argument file_not_opened : Message
  output_saved output_dropped path_not_saved label_not_found : Message
  debug_notice : Notice → Message
  program_loaded load_failed program_restarted restart_failed : Message
  starting_program input_is : Text → Message
  breakpoint_set : ℕ → ℕ → Message
  help_text : Message
  undefined_command : Text → Message

-- The breakpoints are `brkpts.num` with the memory behind `brkpts.addrs`, and the call history has
-- the size that the program keeps beside the size that was allocated. The last four fields are the
-- surroundings: the files that can be opened, whether the file for the output can, `stdin`, and
-- whether the compiler leaves a spare byte behind an array of so many bytes on the stack.
pub record Dbg : Type 0 where
  pub quit_flag : Bool
  pub last_prog_path : Option Text
  pub prog_state : ProgramState
  pub brkpts_num : ℕ
  pub brkpts_allocated : ℕ
  pub brkpts_addrs : ℕ → ℕ
  pub history_allocated : ℕ
  pub call_history : ℕ → ℕ
  pub call_history_top : ℕ
  pub call_history_size : ℕ
  pub debug_data : DebugData
  pub printed : List Message
  pub files : Text → Option File
  pub out_file_opens : Bool
  pub stdin : List ℕ
  pub spare_byte : ℕ → Bool
