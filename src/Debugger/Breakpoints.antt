-- ===== src/Debugger/Breakpoints.antt =====
-- `at_breakpoint` of src/ijdb.c finds the first breakpoint at the program counter.
use mathlib.Core.Path.{subst}
use integer_java_virtual_mac.Base.{
  ℕ, zero, suc, ◌+◌, ◌≤◌, ◌<◌, ◌≡◌, ◌≢◌, refl, lt→ltb, ◌==◌, Bool-cases, inl, inr, arith,
}
use integer_java_virtual_mac.Machine.{Vm, ok}
use integer_java_virtual_mac.Debugger.{Dbg, read_breakpoint, find_breakpoint, at_breakpoint}

-- No breakpoint from `i` up to `n` is at `pc`.
abbrev pub Misses : Dbg → ℕ → ℕ → ℕ → Type 0
Misses d pc i n = (j : ℕ) → i ≤ j → j < n → d.brkpts_addrs j ≢ pc

-- The number of the first breakpoint at `pc` among those from `i` up to `n`, counted from 1, or 0.
pub data FirstBreakpoint (d : Dbg) (pc i n : ℕ) : ℕ → Type 0 where
  no_breakpoint : Misses d pc i n → FirstBreakpoint d pc i n 0
  breakpoint :
      {j : ℕ}
      → i ≤ j
      → j < n
      → d.brkpts_addrs j ≡ pc
      → Misses d pc i j
      → FirstBreakpoint d pc i n (j + 1)

Misses-earlier :
    (d : Dbg) (pc i n : ℕ) → d.brkpts_addrs i ≢ pc → Misses d pc (i + 1) n → Misses d pc i n
Misses-earlier d pc i n ne misses j le lt = elim (Bool-cases (i == j)) [
  | inl e ↦ subst (λ (k : ℕ). d.brkpts_addrs k ≢ pc) (ground arith) ne
  | inr e ↦ misses j (ground arith) lt
]

FirstBreakpoint-later :
    (d : Dbg) (pc i n id : ℕ)
    → d.brkpts_addrs i ≢ pc
    → FirstBreakpoint d pc (i + 1) n id
    → FirstBreakpoint d pc i n id
FirstBreakpoint-later d pc i n id ne (no_breakpoint misses) =
    no_breakpoint (Misses-earlier d pc i n ne misses)
FirstBreakpoint-later d pc i n id ne (breakpoint {j} le lt e misses) =
    breakpoint (omega arith) lt e (Misses-earlier d pc i j ne misses)

FirstBreakpoint-none :
    (d : Dbg) (pc i n id : ℕ) → Misses d pc i n → FirstBreakpoint d pc i n id → id ≡ 0
FirstBreakpoint-none d pc i n id misses (no_breakpoint _) = refl
FirstBreakpoint-none d pc i n id misses (breakpoint {j} le lt e _) = absurd (misses j le lt e)

find_breakpoint_lem :
    (n i : ℕ) (d : Dbg) (s : Vm) (pc : ℕ)
    → i + n ≤ d.brkpts_allocated
    → (id : ℕ) × (find_breakpoint n i pc d s ≡ ok (id, d) s) × FirstBreakpoint d pc i (i + n) id
unfolding find_breakpoint read_breakpoint
find_breakpoint_lem zero i d s pc fits = (0, refl, no_breakpoint λ j le lt. absurd (omega arith))
find_breakpoint_lem (suc n) i d s pc fits = elim (Bool-cases (d.brkpts_addrs i == pc)) [
  | inl e ↦ (
    i + 1,
    rw (lt→ltb i d.brkpts_allocated (omega arith), e) refl,
    breakpoint (omega arith) (omega arith) (ground arith) (λ j le lt. absurd (omega arith)),
  )
  | inr e ↦
      let (id, found, first) = find_breakpoint_lem n (i + 1) d s pc (omega arith) in
      let sum : i + 1 + n ≡ i + suc n = omega arith in
      (
        id,
        rw (lt→ltb i d.brkpts_allocated (omega arith), e) found,
        FirstBreakpoint-later d pc i (i + suc n) id (ground arith)
            (subst (λ (m : ℕ). FirstBreakpoint d pc (i + 1) m id) sum first),
      )
]

-- Where the breakpoints lie in the block that was allocated for them, `at_breakpoint` returns the
-- number, counted from 1, of the first breakpoint at the program counter, or 0 if there is none
-- there, and changes nothing.
pub at_breakpoint_lem :
    (d : Dbg) (s : Vm)
    → d.brkpts_num ≤ d.brkpts_allocated
    → (id : ℕ) × (at_breakpoint d s ≡ ok (id, d) s) × FirstBreakpoint d s.cpu.pc 0 d.brkpts_num id
unfolding at_breakpoint
at_breakpoint_lem d s fits =
    let (id, found, first) = find_breakpoint_lem d.brkpts_num 0 d s s.cpu.pc (omega arith) in
    (id, found, subst (λ (n : ℕ). FirstBreakpoint d s.cpu.pc 0 n id) (omega arith) first)

-- Away from all breakpoints the answer is 0.
pub at_breakpoint-Misses :
    (d : Dbg) (s : Vm)
    → d.brkpts_num ≤ d.brkpts_allocated
    → Misses d s.cpu.pc 0 d.brkpts_num
    → at_breakpoint d s ≡ ok (0, d) s
at_breakpoint-Misses d s fits misses =
    let (id, found, first) = at_breakpoint_lem d s fits in
    rw (found, FirstBreakpoint-none d s.cpu.pc 0 d.brkpts_num id misses first) refl
