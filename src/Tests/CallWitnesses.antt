-- ===== src/Tests/CallWitnesses.antt =====
-- The theorems on calls and returns at a concrete call.
use integer_java_virtual_mac.Base.{
  ℕ, ◌+◌, ◌<◌, ◌≡◌, refl, ◌&&◌, ◌==◌, ltb, leb, if◌then◌else◌, List, [], ◌∷◌, arith,
}
use integer_java_virtual_mac.Machine.{Vm, ok, update, write_stack}
use integer_java_virtual_mac.Tests.Programs.{machine, get_or-AreBytes}
use integer_java_virtual_mac.Cpu.{stack_push, enlarge, get_constant}
use integer_java_virtual_mac.Interpreter.{
  next_byte, get_arg_short, exec_op_invokevirtual, exec_op_ireturn, open_frame, save_registers,
  checked_push, clear_stack,
}
use integer_java_virtual_mac.Interpreter.Fetch.{HasCode}
use integer_java_virtual_mac.Interpreter.Calls.{Callable}
use integer_java_virtual_mac.Interpreter.Returns.{
  returned, KeepsFrame, IsCaller, exec_op_invokevirtual-exec_op_ireturn,
}

-- INVOKEVIRTUAL 0 and HALT, then a method of one argument and one local variable that starts with
-- BIPUSH 9 and IRETURN. The opcode of the call has been read, and its argument is on the stack.
abbrev call_code : List ℕ
call_code = 0xb6 ∷ 0 ∷ 0 ∷ 0xff ∷ 0 ∷ 1 ∷ 0 ∷ 1 ∷ 0x10 ∷ 9 ∷ 0xac ∷ []

abbrev pub caller_machine : Vm
caller_machine =
    let s = machine call_code (4 ∷ []) in
    record s { cpu = record (s.cpu) { pc = 1; sp = 0; stack = λ i. if i == 0 then 7 else 0 } }

pub caller_machine-HasCode : HasCode caller_machine
caller_machine-HasCode = record {
  size = omega arith;
  bytes = λ i. get_or-AreBytes call_code i (
    omega arith,
    (
      omega arith,
      (
        omega arith,
        (
          omega arith,
          (
            omega arith,
            (
              omega arith,
              (omega arith, (omega arith, (omega arith, (omega arith, (omega arith, tt))))),
            ),
          ),
        ),
      ),
    ),
  );
}

caller_machine-Callable : Callable caller_machine 4 1 1
caller_machine-Callable = record {
  code = caller_machine-HasCode;
  allocates = refl;
  size_pos = omega arith;
  size_int = omega arith;
  sp_word = omega arith;
  sp_range = omega arith;
  argument = omega arith;
  consts_int = omega arith;
  index = omega arith;
  constant = omega arith;
  address = refl;
  method = omega arith;
  args_at = refl;
  locals_at = refl;
  enough = omega arith;
}

-- The machine in the method: the words at 2 to 5 are the saved registers.
abbrev method_machine : Vm
method_machine =
    let s = caller_machine in
    let f = update (update (update (update s.cpu.stack 2 0) 3 0) 4 0) 5 3 in
    record s {
      cpu = record (s.cpu) {
        pc = 8;
        sp = 5;
        fp = 2;
        lv = 0;
        nv = 2;
        stack = λ j. if leb 1 j && ltb j (1 + 1) then 0 else f j;
      };
    }

called : exec_op_invokevirtual caller_machine ≡ ok tt method_machine
unfolding exec_op_invokevirtual get_arg_short next_byte get_constant open_frame save_registers
    checked_push clear_stack stack_push enlarge write_stack
called = refl

-- The machine at the end of the method, with the value 9 on the stack.
abbrev ending_machine : Vm
ending_machine =
    let a = method_machine in
    record a { cpu = record (a.cpu) { pc = 11; sp = 6; stack = update a.cpu.stack 6 9 } }

ending_machine-KeepsFrame : KeepsFrame method_machine ending_machine
ending_machine-KeepsFrame = record {
  size_int = omega arith;
  size_grows = omega arith;
  same_lv = refl;
  same_nv = refl;
  same_fp = refl;
  same_code = refl;
  top = omega arith;
  top_room = omega arith;
  saved = λ i h. ground arith;
  below = λ j h. absurd (omega arith);
}

caller_machine-IsCaller : IsCaller caller_machine
caller_machine-IsCaller = record {
  next_pc = omega arith;
  fp_range = omega arith;
  nv_range = omega arith;
  lv_range = omega arith;
}

exec_op_invokevirtual-exec_op_ireturn_example :
    (exec_op_ireturn ending_machine ≡ ok tt (returned ending_machine 0 0 0 3))
    × (ending_machine.cpu.lv ≡ 0)
    × ((j : ℕ) → j < 0 → ending_machine.cpu.stack j ≡ caller_machine.cpu.stack j)
exec_op_invokevirtual-exec_op_ireturn_example =
    exec_op_invokevirtual-exec_op_ireturn caller_machine method_machine ending_machine
      caller_machine-Callable caller_machine-IsCaller called ending_machine-KeepsFrame
