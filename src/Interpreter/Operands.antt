-- ===== src/Interpreter/Operands.antt =====
-- The instructions of src/interpreter.c on the two words on top of the stack.
use integer_java_virtual_mac.Base.{ℕ, ◌+◌, ◌-◌, ◌<◌, ◌≡◌, bit_and, bit_or, refl, arith}
use integer_java_virtual_mac.Base.Word.{wrap, sub_word}
use integer_java_virtual_mac.Machine.{Vm, ok, update}
use integer_java_virtual_mac.Cpu.{stack_pop}
use integer_java_virtual_mac.Cpu.Stack.{stack_pop-ok, stack_push-ok}
use integer_java_virtual_mac.Interpreter.Compute.{
  push, exec_op_swap, exec_op_iadd, exec_op_isub, exec_op_iand, exec_op_ior,
}

-- Two words at least lie in the frame.
pub record HasOperands (s : Vm) : Type 0 where
  pub two : s.cpu.lv < s.cpu.sp
  pub room : s.cpu.sp < s.cpu.stack_size
  pub size_int : s.cpu.stack_size < 0x8000_0000

-- The machine with another stack.
abbrev pub with_stack : Vm → ℕ → (ℕ → ℕ) → Vm
with_stack s k f = record s { cpu = record (s.cpu) { sp = k; stack = f } }

-- The machine with `v` in place of the two words.
abbrev pub replaced : Vm → ℕ → Vm
replaced s v = with_stack s (s.cpu.sp - 1) (update s.cpu.stack (s.cpu.sp - 1) v)

module _ (s : Vm) (h : HasOperands s) where
  first : stack_pop s ≡ ok (s.cpu.stack s.cpu.sp) (with_stack s (s.cpu.sp - 1) s.cpu.stack)
  first =
      let e : sub_word s.cpu.sp 1 ≡ s.cpu.sp - 1 = omega (arith, h.two, h.room, h.size_int) in
      rw (stack_pop-ok s (omega (arith, h.two)) h.room h.size_int, e) refl

  second :
      stack_pop (with_stack s (s.cpu.sp - 1) s.cpu.stack)
      ≡ ok (s.cpu.stack (s.cpu.sp - 1)) (with_stack s (sub_word (s.cpu.sp - 1) 1) s.cpu.stack)
  second =
      stack_pop-ok (with_stack s (s.cpu.sp - 1) s.cpu.stack) (omega (arith, h.two))
        (omega (arith, h.room)) h.size_int

  result :
      (v : ℕ) → push v (with_stack s (sub_word (s.cpu.sp - 1) 1) s.cpu.stack) ≡ ok tt (replaced s v)
  result v =
      let t = with_stack s (sub_word (s.cpu.sp - 1) 1) s.cpu.stack in
      let e : wrap (sub_word (s.cpu.sp - 1) 1 + 1) ≡ s.cpu.sp - 1 =
        omega (arith, h.two, h.room, h.size_int) in
      rw (stack_push-ok t v (omega (arith, e, h.room)) h.size_int, e) refl

  -- Where two words at least lie in the frame, IADD, ISUB, IAND and IOR replace them by their sum
  -- and by the lower word less the top one, modulo 2 ^ 32, and by their bitwise conjunction and
  -- disjunction, and change nothing else but the stack pointer.
  pub exec_op_iadd_isub_iand_ior :
      let a = s.cpu.stack (s.cpu.sp - 1) in
      let b = s.cpu.stack s.cpu.sp in
      (exec_op_iadd s ≡ ok tt (replaced s (wrap (a + b))))
      × (exec_op_isub s ≡ ok tt (replaced s (sub_word a b)))
      × (exec_op_iand s ≡ ok tt (replaced s (bit_and a b)))
      × (exec_op_ior s ≡ ok tt (replaced s (bit_or a b)))
  unfolding exec_op_iadd exec_op_isub exec_op_iand exec_op_ior
  exec_op_iadd_isub_iand_ior = (
    rw (first, second) (result _),
    rw (first, second) (result _),
    rw (first, second) (result _),
    rw (first, second) (result _),
  )

  pub exec_op_swap-ok :
      exec_op_swap s
      ≡ ok tt (
          with_stack s s.cpu.sp (
            update
              (update s.cpu.stack (s.cpu.sp - 1) (s.cpu.stack s.cpu.sp))
              s.cpu.sp
              (s.cpu.stack (s.cpu.sp - 1))))
  unfolding exec_op_swap
  exec_op_swap-ok =
      let t = replaced s (s.cpu.stack s.cpu.sp) in
      let e : wrap (s.cpu.sp - 1 + 1) ≡ s.cpu.sp = omega (arith, h.two, h.room, h.size_int) in
      rw
        (
          first,
          second,
          result (s.cpu.stack s.cpu.sp),
          stack_push-ok t (s.cpu.stack (s.cpu.sp - 1)) (omega (arith, e, h.room)) h.size_int,
          e,
        )
        refl
