-- ===== src/Interpreter/Jumps.antt =====
-- The instructions of src/interpreter.c that jump.
use integer_java_virtual_mac.Base.{
  ℕ, ◌+◌, ◌-◌, ◌<◌, ◌≤◌, ◌≡◌, refl, ◌⊎◌, Bool, true, false, ◌||◌, ◌==◌, if◌then◌else◌, arith,
}
use integer_java_virtual_mac.Base.Word.{wrap, sub_word, is_neg, sle, sext16}
use integer_java_virtual_mac.Machine.{Vm, Run, bad_jump, ok, exit, when}
use integer_java_virtual_mac.Cpu.{stack_pop, jump}
use integer_java_virtual_mac.Cpu.Stack.{stack_pop-ok}
use integer_java_virtual_mac.Interpreter.Fetch.{HasCode, at_pc, short_at, get_arg_short-ok}
use integer_java_virtual_mac.Interpreter.Operands.{HasOperands}
use integer_java_virtual_mac.Interpreter.Control.{
  jump_offset, exec_op_ifeq, exec_op_iflt, exec_op_icmpeq, exec_op_goto,
}

-- An instruction at address `p`, its opcode read, with an offset behind it that is no less than
-- -32765, and two words at least in the frame.
pub record IsJump (s : Vm) (p : ℕ) : Type 0 where
  pub operands : HasOperands s
  pub code : HasCode s
  pub opcode : s.cpu.pc ≡ p + 1
  pub argument : p + 2 < s.cpu.code_mem_size
  pub offset : (short_at s (p + 1) < 0x8000) ⊎ (0x8003 ≤ short_at s (p + 1))

-- The machine at the instruction behind, with `n` words taken off the stack.
abbrev pub behind : Vm → ℕ → ℕ → Vm
behind s p n = record s { cpu = record (s.cpu) { pc = p + 3; sp = sub_word s.cpu.sp n } }

module _ (s : Vm) (p : ℕ) where
  -- The address that the offset leads to from the instruction.
  abbrev pub target : ℕ
  target = wrap (p + sext16 (short_at s (p + 1)))

  -- What is left of the offset behind the instruction, which is what `jump` gets.
  abbrev pub remaining : ℕ
  remaining = sext16 (sub_word (sext16 (short_at s (p + 1))) 3)

  -- A jump from the instruction behind.
  abbrev pub lands : Vm → Run (Unit {0})
  lands t =
      if is_neg target || sle s.cpu.code_mem_size remaining
      then exit bad_jump t
      else ok tt (at_pc t target)

module _ (s : Vm) (p : ℕ) (h : IsJump s p) where
  short-lt : short_at s (p + 1) < 0x10000
  short-lt = omega (arith, h.code.bytes (p + 1), h.code.bytes (p + 1 + 1))

  jump_offset-ok : jump_offset s ≡ ok (remaining s p) (at_pc s (p + 3))
  unfolding jump_offset
  jump_offset-ok =
      let e : s.cpu.pc + 2 ≡ p + 3 = omega (arith, h.opcode) in
      rw (get_arg_short-ok s h.code (omega (arith, h.opcode, h.argument)), e, h.opcode) refl

  landing : (n : ℕ) → jump (remaining s p) (behind s p n) ≡ lands s p (behind s p n)
  unfolding jump
  landing n =
      let e : wrap (p + 3 + remaining s p) ≡ target s p =
        ground (arith, h.offset, short-lt, h.code.size, h.argument) in
      rw e refl

  branch :
      (b : Bool) (n : ℕ)
      → when b (jump (remaining s p)) (behind s p n)
        ≡ (if b then lands s p (behind s p n) else ok tt (behind s p n))
  branch true n = landing n
  branch false n = refl

  first : stack_pop (at_pc s (p + 3)) ≡ ok (s.cpu.stack s.cpu.sp) (behind s p 1)
  first =
      stack_pop-ok (at_pc s (p + 3)) (omega (arith, h.operands.two)) h.operands.room
        h.operands.size_int

  second : stack_pop (behind s p 1) ≡ ok (s.cpu.stack (s.cpu.sp - 1)) (behind s p 2)
  second =
      let one : sub_word s.cpu.sp 1 ≡ s.cpu.sp - 1 =
        omega (arith, h.operands.two, h.operands.room, h.operands.size_int) in
      let two : sub_word (s.cpu.sp - 1) 1 ≡ sub_word s.cpu.sp 2 =
        omega (arith, h.operands.two, h.operands.room, h.operands.size_int) in
      let t = record s { cpu = record (s.cpu) { pc = p + 3; sp = s.cpu.sp - 1 } } in
      rw
        (
          one,
          stack_pop-ok t (omega (arith, h.operands.two)) (omega (arith, h.operands.room))
              h.operands.size_int,
          two,
        )
        refl

  none_taken : at_pc s (p + 3) ≡ behind s p 0
  none_taken =
      let e : s.cpu.sp ≡ sub_word s.cpu.sp 0 =
        omega (arith, h.operands.room, h.operands.size_int) in
      rw (← e) refl

  -- GOTO, IFEQ, IFLT and ICMPEQ at address `p`, with an offset from -32765 on and two words at
  -- least in the frame, take 0, 1, 1 and 2 words off the stack. GOTO always jumps, IFEQ if the word
  -- is 0, IFLT if it is negative, ICMPEQ if the two are equal; otherwise the next instruction is
  -- the one behind. A jump leads to `p` plus the signed offset, and gives up with a message if that
  -- is negative or the offset less 3 is not below the size of the code. Nothing else changes.
  pub exec_op_goto_ifeq_iflt_icmpeq :
      let a = s.cpu.stack (s.cpu.sp - 1) in
      let b = s.cpu.stack s.cpu.sp in
      let t : ℕ → Vm = behind s p in
      (exec_op_goto s ≡ lands s p (t 0))
      × (exec_op_ifeq s ≡ (if b == 0 then lands s p (t 1) else ok tt (t 1)))
      × (exec_op_iflt s ≡ (if is_neg b then lands s p (t 1) else ok tt (t 1)))
      × (exec_op_icmpeq s ≡ (if b == a then lands s p (t 2) else ok tt (t 2)))
  unfolding exec_op_goto exec_op_ifeq exec_op_iflt exec_op_icmpeq
  exec_op_goto_ifeq_iflt_icmpeq = (
    rw (jump_offset-ok, none_taken) (landing 0),
    rw (jump_offset-ok, first) (branch (s.cpu.stack s.cpu.sp == 0) 1),
    rw (jump_offset-ok, first) (branch (is_neg (s.cpu.stack s.cpu.sp)) 1),
    rw (jump_offset-ok, first, second)
        (branch (s.cpu.stack s.cpu.sp == s.cpu.stack (s.cpu.sp - 1)) 2),
  )
