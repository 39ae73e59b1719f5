-- ===== src/Interpreter/FrameWords.antt =====
-- INVOKEVIRTUAL and IRETURN of src/interpreter.c keep the machine's values words.
use integer_java_virtual_mac.Base.{ℕ, ◌+◌, ◌<◌, ◌%◌, leb, ltb, ◌&&◌, if◌then◌else◌, arith}
use integer_java_virtual_mac.Base.Word.{wrap, sub_word}
use integer_java_virtual_mac.Machine.{Vm}
use integer_java_virtual_mac.Machine.Words.{
  IsWord, HasWords, Typed, Any, Typed-then, Typed-word, typed_rules, with_pc-HasWords,
  with_sp-HasWords, with_fp-HasWords, with_nv-HasWords, wrap-IsWord, sub_word-IsWord,
}
use integer_java_virtual_mac.Cpu.Words.{stack_push-Typed, stack_pop-Typed, get_constant-Typed}
use integer_java_virtual_mac.Interpreter.{
  clear_stack, checked_push, save_registers, open_frame, exec_op_invokevirtual, exec_op_ireturn,
}
use integer_java_virtual_mac.Interpreter.Words.{get_arg_short-Typed}

ruleset operation_rules = (typed_rules, stack_push-Typed, stack_pop-Typed, get_arg_short-Typed)

clear_stack-Typed : (i n : ℕ) (s : Vm) → HasWords s → Typed Any (clear_stack i n s)
unfolding clear_stack
clear_stack-Typed i n s h =
    let cleared : HasWords (record s {
      cpu = record (s.cpu) { stack = λ j. if leb i j && ltb j (i + n) then 0 else s.cpu.stack j };
    }) =
      record {
        pc_word = h.pc_word;
        sp_word = h.sp_word;
        fp_word = h.fp_word;
        lv_word = h.lv_word;
        nv_word = h.nv_word;
        stack_words = λ j. ground (arith, h.stack_words j);
        const_words = h.const_words;
        code_bytes = h.code_bytes;
        arrays_words = h.arrays_words;
        input_words = h.input_words;
      } in
    search typed_rules

checked_push-Typed : (e : ℕ) (s : Vm) → IsWord e → HasWords s → Typed Any (checked_push e s)
unfolding checked_push
checked_push-Typed e s w h = search operation_rules

-- The registers that are saved are words.
save_registers-Typed : (pc : ℕ) (s : Vm) → IsWord pc → HasWords s → Typed Any (save_registers pc s)
unfolding save_registers
save_registers-Typed pc s w h = Typed-then _ (checked_push-Typed s.cpu.lv s h.lv_word h) λ _ s₁ h₁.
    Typed-then _ (checked_push-Typed s₁.cpu.nv s₁ h₁.nv_word h₁) λ _ s₂ h₂.
      Typed-then _ (checked_push-Typed s₂.cpu.fp s₂ h₂.fp_word h₂)
        λ _ s₃ h₃. checked_push-Typed pc s₃ w h₃

-- The registers of a new frame.
framed-HasWords :
    (args locals : ℕ) (s : Vm)
    → args < 0x10000
    → locals < 0x10000
    → HasWords s
    → HasWords (record s {
      cpu = record (s.cpu) {
        fp = sub_word s.cpu.sp 3;
        nv = args + locals;
        lv = sub_word (sub_word s.cpu.sp 3) (args + locals);
      };
    })
framed-HasWords args locals s a l h = record {
  pc_word = h.pc_word;
  sp_word = h.sp_word;
  fp_word = sub_word-IsWord s.cpu.sp 3;
  lv_word = sub_word-IsWord (sub_word s.cpu.sp 3) (args + locals);
  nv_word = omega arith;
  stack_words = h.stack_words;
  const_words = h.const_words;
  code_bytes = h.code_bytes;
  arrays_words = h.arrays_words;
  input_words = h.input_words;
}

open_frame-Typed :
    (args locals pc : ℕ) (s : Vm)
    → args < 0x10000
    → locals < 0x10000
    → IsWord pc
    → HasWords s
    → Typed Any (open_frame args locals pc s)
unfolding open_frame
open_frame-Typed args locals pc s a l w h =
    let t = record s { cpu = record (s.cpu) { sp = wrap (s.cpu.sp + locals) } } in
    let raised : HasWords t = with_sp-HasWords s _ (wrap-IsWord (s.cpu.sp + locals)) h in
    Typed-then _ (save_registers-Typed pc t w raised) λ _ u hu.
      let framed = framed-HasWords args locals u a l hu in search (typed_rules, clear_stack-Typed)

pub exec_op_invokevirtual-Typed : (s : Vm) → HasWords s → Typed Any (exec_op_invokevirtual s)
unfolding exec_op_invokevirtual
exec_op_invokevirtual-Typed s h = Typed-word _ (get_arg_short-Typed s h) λ i s₁ _ h₁.
    Typed-word _ (get_constant-Typed i s₁ h₁) λ offset s₂ word h₂.
      let low : (n : ℕ) → n % 0x10000 < 0x10000 = λ n. omega arith in
      let entered = λ (t : Vm) (k : HasWords t). with_pc-HasWords t offset word k in
      let old = h₂.pc_word in search (operation_rules, open_frame-Typed, low, entered, old) depth 20

-- The last two registers that a return restores.
returned-HasWords :
    (lv nv : ℕ) (s : Vm)
    → IsWord lv
    → HasWords s
    → HasWords (record s { cpu = record (s.cpu) { lv = lv; sp = sub_word s.cpu.sp nv } })
returned-HasWords lv nv s w h = record {
  pc_word = h.pc_word;
  sp_word = sub_word-IsWord s.cpu.sp nv;
  fp_word = h.fp_word;
  lv_word = w;
  nv_word = h.nv_word;
  stack_words = h.stack_words;
  const_words = h.const_words;
  code_bytes = h.code_bytes;
  arrays_words = h.arrays_words;
  input_words = h.input_words;
}

pub exec_op_ireturn-Typed : (s : Vm) → HasWords s → Typed Any (exec_op_ireturn s)
unfolding exec_op_ireturn
exec_op_ireturn-Typed s h = Typed-word _ (stack_pop-Typed s h) λ ret s₁ wr h₁.
    let k₁ = with_sp-HasWords s₁ (wrap (s₁.cpu.fp + 3)) (wrap-IsWord (s₁.cpu.fp + 3)) h₁ in
    Typed-word _ (stack_pop-Typed _ k₁) λ pc s₂ w₂ h₂.
      Typed-word _ (stack_pop-Typed _ (with_pc-HasWords s₂ pc w₂ h₂)) λ fp s₃ w₃ h₃.
        Typed-word _ (stack_pop-Typed _ (with_fp-HasWords s₃ fp w₃ h₃)) λ nv s₄ w₄ h₄.
          Typed-word _ (stack_pop-Typed _ (with_nv-HasWords s₄ nv w₄ h₄)) λ lv s₅ w₅ h₅.
            let k₅ = returned-HasWords lv s₁.cpu.nv s₅ w₅ h₅ in search operation_rules depth 20
