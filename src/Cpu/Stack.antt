-- ===== src/Cpu/Stack.antt =====
-- `stack_push` and `stack_pop` of src/cpu.c when every allocation succeeds: the stack grows by
-- factors of eight until the limit of 2 ^ 32 bytes.
use native.Mathlib.Nat.{pow-suc}
use native.Mathlib.Decide.{dec_lt}
use integer_java_virtual_mac.Base.{
  ℕ, zero, suc, ◌+◌, ◌*◌, ◌^◌, ◌≤◌, ◌<◌, ◌≡◌, refl, ap, Bool, true, inl, inr, Bool-cases, lt→ltb,
  arith,
}
use integer_java_virtual_mac.Base.Word.{wrap, slt, sub_word}
use integer_java_virtual_mac.Machine.{
  Vm, Error, out_of_memory, ok, exit, Ends, returns, exits, Ends-bind, Ends-mono, update,
  AllocSucceeds, alloc-AllocSucceeds, read_stack, write_stack,
}
use integer_java_virtual_mac.Cpu.{octuple_retry, octuple_stack_size, enlarge, stack_push, stack_pop}

abbrev pub resized : Vm → ℕ → Vm
resized s n = record s { cpu = record (s.cpu) { stack_size = n } }

-- A stack with so many cells that eight times as many would take more than 2 ^ 32 bytes.
abbrev pub OutOfMemory : Error → Vm → Type 0
OutOfMemory e t = (e ≡ out_of_memory) × (0x800_0000 < t.cpu.stack_size)

-- A stack that is too small for a word at index `top`, and has more than 2 ^ 27 cells, so that
-- eight times as many would take more than 2 ^ 32 bytes.
abbrev pub Overflows : ℕ → Error → Vm → Type 0
Overflows top e t = (e ≡ out_of_memory) × (0x800_0000 < t.cpu.stack_size) × (t.cpu.stack_size ≤ top)

octuple_lem :
    (s : Vm)
    → AllocSucceeds s
    → 0 < s.cpu.stack_size
    → s.cpu.stack_size ≤ 0x800_0000
    → octuple_stack_size s ≡ ok true (resized s (s.cpu.stack_size * 8))
unfolding octuple_stack_size octuple_retry
octuple_lem s h p q = ground (arith, alloc-AllocSucceeds s h)

octuple_limit :
    (s : Vm) → 0x800_0000 < s.cpu.stack_size → octuple_stack_size s ≡ exit out_of_memory s
unfolding octuple_stack_size octuple_retry
octuple_limit s h = ground arith

-- The loop stops with a size above the stack pointer, or at the limit.
abbrev Enlarged : Vm → Bool → Vm → Type 0
Enlarged s b t =
    (n : ℕ) × (b ≡ true)
    × (t ≡ resized s n)
    × (s.cpu.sp < n)
    × (s.cpu.stack_size ≤ n)
    × (n < 0x8000_0000)

room_again : (n k : ℕ) → n * 8 * 8 ^ k ≡ n * 8 ^ suc k
room_again n k = omega (arith, ap (λ (t : ℕ). n * t) (pow-suc 8 k))

enlarge-Ends :
    (k : ℕ) (s : Vm)
    → AllocSucceeds s
    → s.cpu.sp < 0x8000_0000
    → s.cpu.stack_size < 0x8000_0000
    → 0 < s.cpu.stack_size
    → 0x1000_0000 ≤ s.cpu.stack_size * 8 ^ k
    → Ends (Enlarged s) (Overflows s.cpu.sp) (enlarge (suc k) s)
unfolding enlarge
enlarge-Ends zero s h sp size pos enough = elim (Bool-cases (slt s.cpu.sp s.cpu.stack_size)) [
  | inl done ↦ rw done (returns (s.cpu.stack_size, refl, refl, ground arith, omega arith, size))
  | inr more ↦ rw (more, octuple_limit s (omega arith)) (exits (refl, omega arith, ground arith))
]
enlarge-Ends (suc k) s h sp size pos enough = elim (Bool-cases (slt s.cpu.sp s.cpu.stack_size)) [
  | inl done ↦ rw done (returns (s.cpu.stack_size, refl, refl, ground arith, omega arith, size))
  | inr more ↦ elim (dec_lt 0x800_0000 s.cpu.stack_size) [
    | yes over ↦ rw (more, octuple_limit s over) (exits (refl, over, ground arith))
    | no under ↦
        let t = resized s (s.cpu.stack_size * 8) in
        rw (more, octuple_lem s h pos (omega arith))
          (Ends-mono
            (enlarge-Ends k t h sp (omega arith) (omega arith)
              (omega (arith, room_again s.cpu.stack_size k)))
            λ b u (n, e, eq, lt, le, top). (n, e, eq, lt, omega arith, top))
  ]
]

-- The machine after a push, with a stack of `n` cells.
abbrev pub pushed : Vm → ℕ → ℕ → Vm
pushed s e n = record s {
  cpu = record (s.cpu) {
    stack_size = n;
    sp = wrap (s.cpu.sp + 1);
    stack = update s.cpu.stack (wrap (s.cpu.sp + 1)) e;
  };
}

-- The stack pointer is -1 or lies in the stack.
pub record HasStack (s : Vm) : Type 0 where
  pub allocates : AllocSucceeds s
  pub size_pos : 0 < s.cpu.stack_size
  pub size_int : s.cpu.stack_size < 0x8000_0000
  pub sp_range : wrap (s.cpu.sp + 1) < 0x8000_0000

abbrev pub IsPushed : Vm → ℕ → Bool → Vm → Type 0
IsPushed s e b t =
    (n : ℕ) × (b ≡ true)
    × (t ≡ pushed s e n)
    × (wrap (s.cpu.sp + 1) < n)
    × (s.cpu.stack_size ≤ n)
    × (n < 0x8000_0000)

pub stack_push-Ends :
    (s : Vm) (e : ℕ)
    → HasStack s
    → Ends (IsPushed s e) (Overflows (wrap (s.cpu.sp + 1))) (stack_push e s)
unfolding stack_push write_stack
stack_push-Ends s e h =
    let t = record s { cpu = record (s.cpu) { sp = wrap (s.cpu.sp + 1) } } in
    Ends-bind
      (enlarge-Ends 11 t h.allocates h.sp_range h.size_int h.size_pos (omega (arith, h.size_pos)))
      λ b u (n, eb, eu, lt, le, top).
        rw (eb, eu, lt→ltb _ _ lt) (returns (n, refl, refl, lt, le, top))

-- The machine after a pop.
abbrev pub popped : Vm → Vm
popped s = record s { cpu = record (s.cpu) { sp = sub_word s.cpu.sp 1 } }

pub stack_pop-ok :
    (s : Vm)
    → s.cpu.lv ≤ s.cpu.sp
    → s.cpu.sp < s.cpu.stack_size
    → s.cpu.stack_size < 0x8000_0000
    → stack_pop s ≡ ok (s.cpu.stack s.cpu.sp) (popped s)
unfolding stack_pop read_stack
stack_pop-ok s low high int = ground arith

-- With room on the stack a push needs no allocation.
pub stack_push-ok :
    (s : Vm) (e : ℕ)
    → wrap (s.cpu.sp + 1) < s.cpu.stack_size
    → s.cpu.stack_size < 0x8000_0000
    → stack_push e s ≡ ok true (pushed s e s.cpu.stack_size)
unfolding stack_push enlarge write_stack
stack_push-ok s e room int = ground arith
