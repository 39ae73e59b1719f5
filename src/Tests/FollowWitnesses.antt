-- ===== src/Tests/FollowWitnesses.antt =====
-- The theorems on a run under the debugger at a concrete program.
use integer_java_virtual_mac.Base.{◌≡◌, refl, [], ◌∷◌, arith, false, true}
use integer_java_virtual_mac.Machine.{Vm, ok, exit, fault, out_of_fuel, read_stack, write_stack}
use integer_java_virtual_mac.Cpu.{stack_push, stack_pop, enlarge, get_constant}
use integer_java_virtual_mac.Opcode.{decode}
use integer_java_virtual_mac.Interpreter.{
  next_byte, get_arg_byte, get_arg_short, exec_op_bipush, outside_frame, exec_op_ireturn,
  clear_stack, checked_push, save_registers, open_frame, exec_op_invokevirtual, exec_op_halt,
}
use integer_java_virtual_mac.Step.{step, execute, dispatch, run, finished as has_finished}
use integer_java_virtual_mac.Debugger.{Dbg, finished, exec_continue}
use integer_java_virtual_mac.Debugger.Calls.{HasHistory}
use integer_java_virtual_mac.Debugger.Moves.{settings}
use integer_java_virtual_mac.Debugger.Trace.{calls, comes_back, goes_on}
use integer_java_virtual_mac.Debugger.Follow.{Turn, CallTrace, last, more, exec_continue-run}
use integer_java_virtual_mac.Tests.DebugWitnesses.{
  in_main_only, in_main_only-HasHistory, main_call, method_call, before_call, before_call-IsInvoked,
}

abbrev after : Vm → Vm
after s = elim (step 1 s) [ ok _ t ↦ t | exit _ t ↦ t | fault ↦ s | out_of_fuel ↦ s ]

abbrev at_bipush : Vm
at_bipush = after before_call

abbrev at_ireturn : Vm
at_ireturn = after at_bipush

abbrev at_halt : Vm
at_halt = after at_ireturn

abbrev at_end : Vm
at_end = after at_halt

the_call : Turn 1 before_call (main_call ∷ []) at_bipush (method_call ∷ main_call ∷ [])
unfolding stack_push stack_pop enlarge get_constant decode next_byte get_arg_byte get_arg_short
    exec_op_bipush outside_frame exec_op_ireturn clear_stack checked_push save_registers open_frame
    exec_op_invokevirtual exec_op_halt step execute dispatch read_stack write_stack
the_call = record {
  inside = omega arith;
  turn = calls refl before_call-IsInvoked refl (omega arith);
  known = true;
  steps = refl;
}

the_bipush :
    Turn 1 at_bipush (method_call ∷ main_call ∷ []) at_ireturn (method_call ∷ main_call ∷ [])
unfolding stack_push stack_pop enlarge get_constant decode next_byte get_arg_byte get_arg_short
    exec_op_bipush outside_frame exec_op_ireturn clear_stack checked_push save_registers open_frame
    exec_op_invokevirtual exec_op_halt step execute dispatch read_stack write_stack
the_bipush = record {
  inside = omega arith;
  turn = goes_on (λ e. cc) (λ e. cc) (λ e. (λ e'. cc, λ e'. cc, λ e'. cc));
  known = true;
  steps = refl;
}

the_return : Turn 1 at_ireturn (method_call ∷ main_call ∷ []) at_halt (main_call ∷ [])
unfolding stack_push stack_pop enlarge get_constant decode next_byte get_arg_byte get_arg_short
    exec_op_bipush outside_frame exec_op_ireturn clear_stack checked_push save_registers open_frame
    exec_op_invokevirtual exec_op_halt step execute dispatch read_stack write_stack
the_return = record { inside = omega arith; turn = comes_back refl; known = true; steps = refl }

the_halt : Turn 1 at_halt (main_call ∷ []) at_end (main_call ∷ [])
unfolding stack_push stack_pop enlarge get_constant decode next_byte get_arg_byte get_arg_short
    exec_op_bipush outside_frame exec_op_ireturn clear_stack checked_push save_registers open_frame
    exec_op_invokevirtual exec_op_halt step execute dispatch read_stack write_stack
the_halt = record {
  inside = omega arith;
  turn = goes_on (λ e. cc) (λ e. cc) (λ e. (λ e'. cc, λ e'. cc, λ e'. cc));
  known = true;
  steps = refl;
}

-- The whole run.
all_turns :
    CallTrace 1 (settings in_main_only) before_call (main_call ∷ []) 4 at_end (main_call ∷ [])
unfolding stack_push stack_pop enlarge get_constant decode next_byte get_arg_byte get_arg_short
    exec_op_bipush outside_frame exec_op_ireturn clear_stack checked_push save_registers open_frame
    exec_op_invokevirtual exec_op_halt step execute dispatch read_stack write_stack has_finished
all_turns =
    more the_call (λ j _ _ e. omega arith) refl
      (more the_bipush (λ j _ _ e. omega arith) refl
        (more the_return (λ j _ _ e. omega arith) refl
          (last the_halt (λ j _ _ e. omega arith) refl)))

not_yet : has_finished before_call ≡ false
unfolding has_finished
not_yet = refl

exec_continue-run_example :
    (run 1 5 before_call ≡ ok tt at_end)
    × ((d' : Dbg) × (exec_continue 1 4 in_main_only before_call ≡ ok (tt, d') at_end)
        × HasHistory d' (main_call ∷ [])
        × (d'.prog_state ≡ finished)
        × (d'.quit_flag ≡ false)
        × (d'.printed ≡ []))
exec_continue-run_example =
    exec_continue-run 1 4 4 in_main_only before_call at_end (main_call ∷ []) (main_call ∷ [])
      in_main_only-HasHistory (omega arith) refl refl not_yet all_turns (omega arith)
