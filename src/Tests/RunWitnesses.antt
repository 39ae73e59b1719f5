-- ===== src/Tests/RunWitnesses.antt =====
-- The theorems on runs and on the initialisation at concrete machines.
use integer_java_virtual_mac.Base.{ℕ, ◌≡◌, ◌==◌, refl, inl, List, [], ◌∷◌, if◌then◌else◌, arith}
use integer_java_virtual_mac.Base.Word.{is_neg}
use integer_java_virtual_mac.Machine.{Vm, ok, exit, bad_map_index}
use integer_java_virtual_mac.Refs.{is_ref, ref_to_index}
use integer_java_virtual_mac.Collector.{arr_gc}
use integer_java_virtual_mac.Collector.Collect.{with_marks}
use integer_java_virtual_mac.Collector.Stray.{IsStray, arr_gc-IsStray}
use integer_java_virtual_mac.Interpreter.{exec_op_goto, exec_op_ifeq, exec_op_iflt, exec_op_icmpeq}
use integer_java_virtual_mac.Interpreter.Jumps.{
  IsJump, behind, lands, exec_op_goto_ifeq_iflt_icmpeq,
}
use integer_java_virtual_mac.Step.{run}
use integer_java_virtual_mac.Machine.Words.{HasWords, Typed, Any}
use integer_java_virtual_mac.Step.Words.{run-Typed}
use integer_java_virtual_mac.Step.Kept.{Keeps, run-Keeps}
use integer_java_virtual_mac.Tests.Programs.{machine, get_or-AreBytes}

-- WIDE ISTORE 1 behind a BIPUSH, and HALT.
abbrev wide_machine : Vm
wide_machine = machine (0x10 ∷ 7 ∷ 0xc4 ∷ 0x36 ∷ 0 ∷ 1 ∷ 0xff ∷ []) []

wide_machine-HasWords : HasWords wide_machine
wide_machine-HasWords = record {
  pc_word = omega arith;
  sp_word = omega arith;
  fp_word = omega arith;
  lv_word = omega arith;
  nv_word = omega arith;
  stack_words = λ i. omega arith;
  const_words = λ i. omega arith;
  code_bytes = λ i. get_or-AreBytes (0x10 ∷ 7 ∷ 0xc4 ∷ 0x36 ∷ 0 ∷ 1 ∷ 0xff ∷ []) i (
    omega arith,
    (omega arith, (omega arith, (omega arith, (omega arith, (omega arith, (omega arith, tt)))))),
  );
  arrays_words = λ i b e. cc;
  input_words = tt;
}

run-Typed_example : Typed Any (run 3 10 wide_machine)
run-Typed_example = run-Typed 3 10 wide_machine wide_machine-HasWords

run-Keeps_example : Keeps wide_machine (run 3 10 wide_machine)
run-Keeps_example = run-Keeps 3 10 wide_machine

-- A number on the stack that looks like a reference, and no array.
abbrev stray_machine : Vm
stray_machine =
    let s = machine [] [] in
    record s { cpu = record (s.cpu) { sp = 1; stack = λ i. if i == 0 then 0xaaff_fffa else 3 } }

stray_machine-IsStray : IsStray stray_machine 0xaaff_fffa
unfolding is_ref ref_to_index
stray_machine-IsStray = record { format = refl; beyond = omega arith }

arr_gc-IsStray_example : arr_gc stray_machine ≡ exit bad_map_index (with_marks stray_machine)
arr_gc-IsStray_example =
    arr_gc-IsStray stray_machine 0 refl (λ e. cc) (omega arith) (omega arith) stray_machine-IsStray

-- IFEQ with offset 3 at address 0, its opcode read, with a 0 on top of two words.
abbrev jump_code : List ℕ
jump_code = 0x99 ∷ 0 ∷ 3 ∷ 0xff ∷ []

abbrev jump_machine : Vm
jump_machine =
    let s = machine jump_code [] in
    record s { cpu = record (s.cpu) { pc = 1; sp = 1; stack = λ i. if i == 0 then 5 else 0 } }

jump_machine-IsJump : IsJump jump_machine 0
jump_machine-IsJump = record {
  operands = record { two = omega arith; room = omega arith; size_int = omega arith };
  code = record {
    size = omega arith;
    bytes = λ i.
        get_or-AreBytes jump_code i (omega arith, (omega arith, (omega arith, (omega arith, tt))));
  };
  opcode = refl;
  argument = omega arith;
  offset = inl (omega arith);
}

exec_op_goto_ifeq_iflt_icmpeq_example :
    (exec_op_goto jump_machine ≡ lands jump_machine 0 (behind jump_machine 0 0))
    × (exec_op_ifeq jump_machine ≡ (
        if 0 == 0
        then lands jump_machine 0 (behind jump_machine 0 1)
        else ok tt (behind jump_machine 0 1)))
    × (exec_op_iflt jump_machine ≡ (
        if is_neg 0
        then lands jump_machine 0 (behind jump_machine 0 1)
        else ok tt (behind jump_machine 0 1)))
    × (exec_op_icmpeq jump_machine ≡ (
        if 0 == 5
        then lands jump_machine 0 (behind jump_machine 0 2)
        else ok tt (behind jump_machine 0 2)))
exec_op_goto_ifeq_iflt_icmpeq_example =
    exec_op_goto_ifeq_iflt_icmpeq jump_machine 0 jump_machine-IsJump
