-- ===== src/Interpreter/Frames.antt =====
-- `open_frame`, the part of INVOKEVIRTUAL in src/interpreter.c that lays out the stack.
use integer_java_virtual_mac.Base.{
  ℕ, zero, suc, ◌+◌, ◌-◌, ◌≤◌, ◌<◌, ◌≡◌, refl, false, ◌&&◌, ltb, leb, ◌==◌, if◌then◌else◌, arith,
}
use integer_java_virtual_mac.Base.Word.{wrap, sub_word, is_neg}
use integer_java_virtual_mac.Machine.{
  Vm, ok, Ends, returns, Ends-bind, Ends-mono, update, AllocSucceeds,
}
use integer_java_virtual_mac.Cpu.Stack.{OutOfMemory, stack_push-Ends}
use integer_java_virtual_mac.Machine.{Ends-exits}
use integer_java_virtual_mac.Interpreter.Control.{
  checked_push, clear_stack, open_frame, save_registers,
}

-- The number of cells in use.
abbrev pub depth : Vm → ℕ
depth s = wrap (s.cpu.sp + 1)

-- The machine with `n` cells of stack that hold `f`, and stack pointer `k`.
abbrev cells : Vm → ℕ → (ℕ → ℕ) → ℕ → Vm
cells s n f k = record s { cpu = record (s.cpu) { stack_size = n; stack = f; sp = k } }

abbrev Filled : Vm → ℕ → (ℕ → ℕ) → ℕ → Vm → Type 0
Filled s old f k t = (n : ℕ) × (t ≡ cells s n f k) × (old ≤ n) × (k < n) × (n < 0x8000_0000)

-- A push writes the cell above the stack pointer, whatever the size of the stack.
checked_push-Ends :
    (s : Vm) (e n : ℕ) (f : ℕ → ℕ) (k j : ℕ)
    → AllocSucceeds s
    → 0 < n
    → n < 0x8000_0000
    → wrap (k + 1) ≡ j
    → j < 0x8000_0000
    → Ends (λ _. Filled s n (update f j e) j) OutOfMemory (checked_push e (cells s n f k))
unfolding checked_push
checked_push-Ends s e n f k j h pos top next small =
    Ends-bind
      (Ends-exits
        (stack_push-Ends (cells s n f k) e
          (record { allocates = h; size_pos = pos; size_int = top; sp_range = omega arith }))
        λ err t (e', large, small'). (e', large))
      λ b t (m, eb, et, lt, le, mtop). rw (eb, et, next) (returns (m, refl, le, omega arith, mtop))

-- The machine in a method, with a stack of `n` cells that hold `f`.
abbrev pub in_frame : Vm → ℕ → ℕ → ℕ → (ℕ → ℕ) → Vm
in_frame s args locals n f =
    let d = depth s in
    record s {
      cpu = record (s.cpu) {
        stack_size = n;
        stack = f;
        sp = d + locals + 3;
        fp = d + locals;
        lv = d - args;
        nv = args + locals;
      };
    }

-- A cell after the call: a cleared local variable, a saved register, or what was there.
abbrev pub frame_cell : Vm → ℕ → ℕ → ℕ → ℕ
frame_cell s locals old_pc j =
    let d = depth s in
    if leb d j && ltb j (d + locals)
    then 0
    else if j == d + locals
    then s.cpu.lv
    else if j == d + locals + 1
    then s.cpu.nv
    else if j == d + locals + 2
    then s.cpu.fp
    else if j == d + locals + 3
    then old_pc
    else s.cpu.stack j

abbrev pub Opened : Vm → ℕ → ℕ → ℕ → Vm → Type 0
Opened s args locals old_pc t =
    (n : ℕ) × (f : ℕ → ℕ) × (t ≡ in_frame s args locals n f)
    × ((j : ℕ) → f j ≡ frame_cell s locals old_pc j)
    × (s.cpu.stack_size ≤ n)
    × (depth s + locals + 3 < n)
    × (n < 0x8000_0000)

-- The stack with the saved registers from `j` on.
abbrev saved : Vm → ℕ → ℕ → ℕ → ℕ
saved s old_pc j =
    update (update (update (update s.cpu.stack j s.cpu.lv) (j + 1) s.cpu.nv) (j + 2) s.cpu.fp)
      (j + 3) old_pc

save_registers-Ends :
    (s : Vm) (old_pc n k j : ℕ)
    → AllocSucceeds s
    → 0 < n
    → n < 0x8000_0000
    → wrap (k + 1) ≡ j
    → j < 0x7ffe_0000
    → Ends
        (λ _. Filled s n (saved s old_pc j) (j + 3))
        OutOfMemory
        (save_registers old_pc (cells s n s.cpu.stack k))
unfolding save_registers
save_registers-Ends s old_pc n k j h pos top next small =
    let f₀ = s.cpu.stack in
    let f₁ = update f₀ j s.cpu.lv in
    let f₂ = update f₁ (j + 1) s.cpu.nv in
    let f₃ = update f₂ (j + 2) s.cpu.fp in
    Ends-bind (checked_push-Ends s s.cpu.lv n f₀ k j h pos top next (omega arith))
      λ _ t₁ (n₁, e₁, le₁, lt₁, top₁). rw e₁ (
        Ends-bind
          (checked_push-Ends s s.cpu.nv n₁ f₁ j (j + 1) h (omega arith) top₁ (omega arith)
            (omega arith))
          λ _ t₂ (n₂, e₂, le₂, lt₂, top₂). rw e₂ (
            Ends-bind
              (checked_push-Ends s s.cpu.fp n₂ f₂ (j + 1) (j + 2) h (omega arith) top₂ (omega arith)
                (omega arith))
              λ _ t₃ (n₃, e₃, le₃, lt₃, top₃). rw e₃ (
                Ends-mono
                  (checked_push-Ends s old_pc n₃ f₃ (j + 2) (j + 3) h (omega arith) top₃
                    (omega arith) (omega arith))
                  λ _ t₄ (n₄, e₄, le₄, lt₄, top₄). (n₄, e₄, omega arith, lt₄, top₄))))

clear_stack-ok :
    (s : Vm) (i n : ℕ)
    → i + n ≤ s.cpu.stack_size
    → (f : ℕ → ℕ) × (clear_stack i n s ≡ ok tt (cells s s.cpu.stack_size f s.cpu.sp))
      × ((j : ℕ) → f j ≡ (if leb i j && ltb j (i + n) then 0 else s.cpu.stack j))
unfolding clear_stack
clear_stack-ok s i zero h = (s.cpu.stack, refl, λ j. ground arith)
clear_stack-ok s i (suc n) h =
    (λ j. if leb i j && ltb j (i + suc n) then 0 else s.cpu.stack j, ground arith, λ j. refl)

-- The whole of a call, its header read.
pub open_frame-Ends :
    (s : Vm) (args locals old_pc : ℕ)
    → AllocSucceeds s
    → 0 < s.cpu.stack_size
    → s.cpu.stack_size < 0x8000_0000
    → s.cpu.sp < 0x1_0000_0000
    → depth s < 0x7ff0_0000
    → args ≤ depth s
    → locals < 0x10000
    → Ends (λ _. Opened s args locals old_pc) OutOfMemory (open_frame args locals old_pc s)
unfolding open_frame
open_frame-Ends s args locals old_pc h pos top word range enough small =
    let d = depth s in
    Ends-bind
      (save_registers-Ends s old_pc s.cpu.stack_size (wrap (s.cpu.sp + locals)) (d + locals) h pos
        top (omega arith) (omega arith))
      λ _ t (n, e, le, lt, ntop).
        let u = in_frame s args locals n (saved s old_pc (d + locals)) in
        let (f, cleared, cell) = clear_stack-ok u d locals (omega arith) in
        let efp : sub_word (d + locals + 3) 3 ≡ d + locals = omega arith in
        let elv : sub_word (d + locals) (args + locals) ≡ d - args = omega arith in
        let frame : is_neg (d - args) ≡ false = ground arith in
        let back : wrap (d - args + args) ≡ d = omega arith in
        rw (e, efp, elv, frame, back, cleared)
          (returns (n, f, refl, λ j. ground (arith, cell j), le, lt, ntop))
