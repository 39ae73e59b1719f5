-- ===== src/Tests/DebugWitnesses.antt =====
-- The theorems on the debugger at a concrete program and history.
use integer_java_virtual_mac.Base.{
  ℕ, ◌≡◌, refl, none, List, [], ◌∷◌, ◌++◌, get_or, arith, false, true, ◌==◌, if◌then◌else◌,
}
use integer_java_virtual_mac.Machine.{Vm, ok, Lasts}
use integer_java_virtual_mac.Symbols.{SymbolBlock, Text}
use integer_java_virtual_mac.Tests.CallWitnesses.{caller_machine, caller_machine-HasCode}
use integer_java_virtual_mac.Debugger.{
  Dbg, started, addr_to_func_name, remove_last_func_call, store_func_call, exec_backtrace,
  at_breakpoint, run_loop,
}
use integer_java_virtual_mac.Debugger.Calls.{
  FuncCall, HasHistory, at_top, remove_last_func_call-HasHistory,
}
use integer_java_virtual_mac.Debugger.Store.{top_words, with_history}
use integer_java_virtual_mac.Debugger.Record.{IsInvoked, store_func_call-HasHistory}
use integer_java_virtual_mac.Debugger.Breakpoints.{FirstBreakpoint, at_breakpoint_lem}
use integer_java_virtual_mac.Debugger.Loop.{Continued, run_loop-Continued, run_loop-Lasts}
use integer_java_virtual_mac.Debugger.Backtrace.{
  with_printed, AreNamed, call_lines, exec_backtrace_lem,
}

abbrev nothing_read : SymbolBlock
nothing_read = record {
  num = 0;
  addr_bytes = 0;
  addr = λ _. 0;
  names_bytes = 0;
  names = λ _. 0;
  starts_bytes = 0;
  names_start = λ _. 0;
}

-- A debugger whose history is `words`, with a breakpoint at 9.
abbrev pub debugger : List ℕ → ℕ → Dbg
debugger words top = record {
  quit_flag = false;
  last_prog_path = none;
  prog_state = started;
  brkpts_num = 1;
  brkpts_allocated = 1;
  brkpts_addrs = λ _. 9;
  history_allocated = top;
  call_history = λ i. get_or words i 0;
  call_history_top = top;
  call_history_size = top;
  debug_data = record { func_label = nothing_read; sec_label = nothing_read };
  printed = [];
  files = λ _. none;
  out_file_opens = true;
  stdin = [];
  spare_byte = λ _. true;
}

abbrev pub main_call : FuncCall
main_call = record { func_addr = 0; args = [] }

abbrev pub method_call : FuncCall
method_call = record { func_addr = 4; args = 7 ∷ [] }

abbrev pub in_main_only : Dbg
in_main_only = debugger (0 ∷ 0 ∷ []) 2

abbrev pub in_method : Dbg
in_method = debugger (0 ∷ 0 ∷ 7 ∷ 1 ∷ 4 ∷ []) 5

pub in_main_only-HasHistory : HasHistory in_main_only (main_call ∷ [])
in_main_only-HasHistory = record {
  fits = omega arith;
  allocated = refl;
  size_int = omega arith;
  calls = (omega arith, refl, refl, (0, refl, refl));
}

pub in_method-HasHistory : HasHistory in_method (method_call ∷ main_call ∷ [])
in_method-HasHistory = record {
  fits = omega arith;
  allocated = refl;
  size_int = omega arith;
  calls = (
    omega arith,
    refl,
    refl,
    (2, (omega arith, refl, refl), (omega arith, refl, refl, (0, refl, refl))),
  );
}

-- INVOKEVIRTUAL is the next instruction, and its argument 7 is on the stack.
abbrev pub before_call : Vm
before_call = record caller_machine { cpu = record (caller_machine.cpu) { pc = 0 } }

pub before_call-IsInvoked : IsInvoked before_call 4 1
before_call-IsInvoked = record {
  code = record { size = omega arith; bytes = caller_machine-HasCode.bytes };
  argument = omega arith;
  consts_int = omega arith;
  index = omega arith;
  constant = omega arith;
  address = refl;
  method = omega arith;
  args_at = refl;
  args_short = omega arith;
  enough = omega arith;
  room = omega arith;
  size_int = omega arith;
}

remove_last_func_call-HasHistory_example :
    (top : ℕ) × (remove_last_func_call in_method before_call
      ≡ ok (tt, at_top in_method top) before_call)
    × HasHistory (at_top in_method top) (main_call ∷ [])
remove_last_func_call-HasHistory_example =
    remove_last_func_call-HasHistory in_method before_call method_call (main_call ∷ [])
      in_method-HasHistory

store_func_call-HasHistory_example :
    (h : ℕ → ℕ) × (size : ℕ) × (store_func_call in_main_only before_call
      ≡ ok (tt, with_history in_main_only h 5 size) before_call)
    × HasHistory
        (with_history in_main_only h 5 size)
        (record { func_addr = 4; args = top_words before_call 1 } ∷ main_call ∷ [])
store_func_call-HasHistory_example =
    store_func_call-HasHistory in_main_only before_call (main_call ∷ []) 4 1 in_main_only-HasHistory
      refl before_call-IsInvoked (omega arith)

-- The labels `a` at 0 and `b` at 4.
abbrev two_functions : SymbolBlock
two_functions = record {
  num = 2;
  addr_bytes = 8;
  addr = λ i. if i == 0 then 0 else 4;
  names_bytes = 16;
  names = λ i. get_or (97 ∷ 0 ∷ 98 ∷ 0 ∷ []) i 0;
  starts_bytes = 8;
  names_start = λ i. if i == 0 then 0 else 2;
}

abbrev with_labels : Dbg
with_labels = record in_method {
  debug_data = record { func_label = two_functions; sec_label = nothing_read };
}

abbrev name_of : ℕ → Text
name_of a = if a == 0 then 97 ∷ [] else 98 ∷ []

with_labels-HasHistory : HasHistory with_labels (method_call ∷ main_call ∷ [])
with_labels-HasHistory = record {
  fits = in_method-HasHistory.fits;
  allocated = in_method-HasHistory.allocated;
  size_int = in_method-HasHistory.size_int;
  calls = in_method-HasHistory.calls;
}

both_named : AreNamed with_labels before_call name_of (method_call ∷ main_call ∷ [])
unfolding addr_to_func_name integer_java_virtual_mac.Debugger.find_func_name
    integer_java_virtual_mac.Debugger.symbol_addr integer_java_virtual_mac.Symbols.get_name
    integer_java_virtual_mac.Symbols.c_string integer_java_virtual_mac.Symbols.str_dup
    integer_java_virtual_mac.Symbols.dup_retry integer_java_virtual_mac.Machine.alloc
both_named = (λ ms. refl, (λ ms. refl, tt))

exec_backtrace_lem_example :
    exec_backtrace with_labels before_call
    ≡ ok
        (
          tt,
          with_printed with_labels
              (with_labels.printed ++ call_lines name_of 0 (method_call ∷ main_call ∷ [])),
        )
        before_call
exec_backtrace_lem_example =
    exec_backtrace_lem with_labels before_call (method_call ∷ main_call ∷ []) name_of
      with_labels-HasHistory both_named refl

-- The only breakpoint is not at the program counter.
at_breakpoint_lem_example :
    (id : ℕ) × (at_breakpoint in_method before_call ≡ ok (id, in_method) before_call)
    × FirstBreakpoint in_method 0 0 1 id
at_breakpoint_lem_example = at_breakpoint_lem in_method before_call (omega arith)

run_loop-Continued_example :
    Continued 1 in_main_only before_call (run_loop 1 4 in_main_only before_call)
run_loop-Continued_example = run_loop-Continued 1 4 in_main_only before_call (omega arith)

run_loop-Lasts_example : Lasts (run_loop 1 4 (record in_main_only { quit_flag = true }) before_call)
run_loop-Lasts_example =
    run_loop-Lasts 1 4 (record in_main_only { quit_flag = true }) before_call refl
