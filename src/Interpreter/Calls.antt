-- ===== src/Interpreter/Calls.antt =====
-- INVOKEVIRTUAL of src/interpreter.c: what a call leaves on the stack.
use integer_java_virtual_mac.Base.{ℕ, ◌+◌, ◌*◌, ◌%◌, ◌≤◌, ◌<◌, ◌≡◌, false, ◌||◌, arith}
use integer_java_virtual_mac.Base.Word.{sext16, is_neg, sle}
use integer_java_virtual_mac.Machine.{Vm, ok, Ends, AllocSucceeds}
use integer_java_virtual_mac.Cpu.{get_constant}
use integer_java_virtual_mac.Cpu.Stack.{OutOfMemory}
use integer_java_virtual_mac.Interpreter.Fetch.{HasCode, short_at, at_pc, get_arg_short-ok}
use integer_java_virtual_mac.Interpreter.Args.{get_arg_short}
use integer_java_virtual_mac.Interpreter.Control.{exec_op_invokevirtual}
use integer_java_virtual_mac.Interpreter.Frames.{depth, Opened, open_frame-Ends}

-- An INVOKEVIRTUAL, its opcode read, whose constant is the address of a method in the code with
-- as many arguments as there are words on the stack, or fewer.
pub record Callable (s : Vm) (offset args locals : ℕ) : Type 0 where
  pub code : HasCode s
  pub allocates : AllocSucceeds s
  pub size_pos : 0 < s.cpu.stack_size
  pub size_int : s.cpu.stack_size < 0x8000_0000
  pub sp_word : s.cpu.sp < 0x1_0000_0000
  pub sp_range : depth s < 0x7ff0_0000
  pub argument : s.cpu.pc + 1 < s.cpu.code_mem_size
  pub consts_int : s.cpu.const_mem_size < 0x8000_0000
  pub index : short_at s s.cpu.pc < 0x8000
  pub constant : short_at s s.cpu.pc * 4 + 4 ≤ s.cpu.const_mem_size
  pub address : s.cpu.const_mem (short_at s s.cpu.pc) ≡ offset
  pub method : offset + 3 < s.cpu.code_mem_size
  pub args_at : short_at s offset ≡ args
  pub locals_at : short_at s (offset + 2) ≡ locals
  pub enough : args ≤ depth s

pub get_constant-ok :
    (s : Vm) (i : ℕ)
    → i < 0x8000
    → s.cpu.const_mem_size < 0x8000_0000
    → i * 4 + 4 ≤ s.cpu.const_mem_size
    → get_constant i s ≡ ok (s.cpu.const_mem i) s
unfolding get_constant
get_constant-ok s i small int fits = ground arith

module _ (s : Vm) {offset args locals : ℕ} (c : Callable s offset args locals) where
  constant_found :
      get_constant (sext16 (short_at s s.cpu.pc)) (at_pc s (s.cpu.pc + 2))
      ≡ ok offset (at_pc s (s.cpu.pc + 2))
  constant_found =
      let e : sext16 (short_at s s.cpu.pc) ≡ short_at s s.cpu.pc = ground (arith, c.index) in
      rw (
        e,
        get_constant-ok (at_pc s (s.cpu.pc + 2)) (short_at s s.cpu.pc) c.index c.consts_int
            c.constant,
        c.address,
      )

  code_at : (n : ℕ) → HasCode (at_pc s n)
  code_at n = record { size = c.code.size; bytes = c.code.bytes }

  header_args : get_arg_short (at_pc s offset) ≡ ok (sext16 args) (at_pc s (offset + 2))
  header_args =
      rw (get_arg_short-ok (at_pc s offset) (code_at offset) (omega (arith, c.method)), c.args_at)

  header_locals : get_arg_short (at_pc s (offset + 2)) ≡ ok (sext16 locals) (at_pc s (offset + 4))
  header_locals =
      let e : offset + 2 + 2 ≡ offset + 4 = omega arith in
      rw (
        get_arg_short-ok (at_pc s (offset + 2)) (code_at (offset + 2)) (omega (arith, c.method)),
        c.locals_at,
        e,
      )

  -- A well-formed INVOKEVIRTUAL, its opcode read, where its constant is the address of a method in
  -- the code, its arguments are on the stack, the frame fits a stack of 2 ^ 31 words and no
  -- allocation fails, ends in the frame of the method or with the message about the limit on the
  -- size of the stack. In the frame the stack may have grown; the words up to the arguments are as
  -- before, the local variables behind them are 0, and then come the caller's `lv`, `nv`, `fp` and
  -- the address behind the call. `lv` is at the first argument, `fp` at the first saved word, `sp`
  -- at the last, and the program counter at the first instruction.
  pub exec_op_invokevirtual-Ends :
      Ends
        (λ _. Opened (at_pc s (offset + 4)) args locals (s.cpu.pc + 2))
        OutOfMemory
        (exec_op_invokevirtual s)
  unfolding exec_op_invokevirtual
  exec_op_invokevirtual-Ends =
      let bounds : (args < 0x10000) × (locals < 0x10000) =
        (omega (arith, c.args_at, c.code.bytes), omega (arith, c.locals_at, c.code.bytes)) in
      let low_args : sext16 args % 0x10000 ≡ args = ground (arith, bounds) in
      let low_locals : sext16 locals % 0x10000 ≡ locals = ground (arith, bounds) in
      let inside : (is_neg offset || sle s.cpu.code_mem_size offset) ≡ false =
        ground (arith, c.method, c.code.size) in
      rw
        (
          get_arg_short-ok s c.code c.argument,
          constant_found,
          inside,
          header_args,
          header_locals,
          low_args,
          low_locals,
        )
        (open_frame-Ends (at_pc s (offset + 4)) args locals (s.cpu.pc + 2) c.allocates c.size_pos
          c.size_int c.sp_word c.sp_range c.enough bounds.1)
