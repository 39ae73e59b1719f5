-- ===== src/Debugger/Calls.antt =====
-- The call history of src/ijdb.c as a stack of calls.
use integer_java_virtual_mac.Base.{
  ℕ, ◌+◌, ◌-◌, ◌≤◌, ◌<◌, ◌≡◌, refl, ◌∙◌, ltb, List, [], ◌∷◌, length, true, arith,
}
use integer_java_virtual_mac.Base.Word.{sub_word}
use integer_java_virtual_mac.Machine.{Vm, ok}
use integer_java_virtual_mac.Debugger.{Dbg, read_history, remove_last_func_call}

-- A call: the address of the method, and the arguments, the first one first.
pub record FuncCall : Type 0 where
  pub func_addr : ℕ
  pub args : List ℕ

-- Downwards from `offset` the history has the words `vs`, and `base` is the offset below them.
abbrev pub Words : (ℕ → ℕ) → ℕ → List ℕ → ℕ → Type 0
Words h offset [] base = offset ≡ base
Words h offset (v ∷ vs) base = (0 < offset) × (h (offset - 1) ≡ v) × Words h (offset - 1) vs base

-- The history below `top` is the stack of calls `cs`, the last one first.
abbrev pub Represents : (ℕ → ℕ) → ℕ → List FuncCall → Type 0
Represents h top [] = top ≡ 0
Represents h top (c ∷ cs) =
    (2 ≤ top)
    × (h (top - 1) ≡ c.func_addr)
    × (h (top - 2) ≡ length c.args)
    × ((base : ℕ) × Words h (top - 2) c.args base × Represents h base cs)

-- The history lies in the block that was allocated for it.
pub record HasHistory (d : Dbg) (cs : List FuncCall) : Type 0 where
  pub fits : d.call_history_top ≤ d.call_history_size
  pub allocated : d.history_allocated ≡ d.call_history_size
  pub size_int : d.call_history_size < 0x1_0000_0000
  pub calls : Represents d.call_history d.call_history_top cs

pub Words-base :
    (h : ℕ → ℕ) (vs : List ℕ) (offset base : ℕ) → Words h offset vs base → offset ≡ base + length vs
Words-base h [] offset base e = omega arith
Words-base h (v ∷ vs) offset base (pos, e, w) = omega (arith, Words-base h vs (offset - 1) base w)

-- What is written at the top or above it leaves the stack alone.
pub Words-frame :
    (h h' : ℕ → ℕ) (vs : List ℕ) (offset base : ℕ)
    → ((j : ℕ) → j < offset → h' j ≡ h j)
    → Words h offset vs base
    → Words h' offset vs base
Words-frame h h' [] offset base same e = e
Words-frame h h' (v ∷ vs) offset base same (pos, e, w) = (
  pos,
  same (offset - 1) (omega arith) ∙ e,
  Words-frame h h' vs (offset - 1) base (λ j lt. same j (omega arith)) w,
)

pub Represents-frame :
    (h h' : ℕ → ℕ) (cs : List FuncCall) (top : ℕ)
    → ((j : ℕ) → j < top → h' j ≡ h j)
    → Represents h top cs
    → Represents h' top cs
Represents-frame h h' [] top same e = e
Represents-frame h h' (c ∷ cs) top same (two, addr, count, (base, w, r)) = (
  two,
  same (top - 1) (omega arith) ∙ addr,
  same (top - 2) (omega arith) ∙ count,
  (
    base,
    Words-frame h h' c.args (top - 2) base (λ j lt. same j (omega arith)) w,
    Represents-frame h h' cs base
        (λ j lt. same j (omega (arith, Words-base h c.args (top - 2) base w))) r,
  ),
)

abbrev pub at_top : Dbg → ℕ → Dbg
at_top d top = record d { call_history_top = top }

-- An IRETURN takes the last call off the stack that the history represents, where there is one, and
-- changes nothing else.
pub remove_last_func_call-HasHistory :
    (d : Dbg) (s : Vm) (c : FuncCall) (cs : List FuncCall)
    → HasHistory d (c ∷ cs)
    → (top : ℕ) × (remove_last_func_call d s ≡ ok (tt, at_top d top) s)
      × HasHistory (at_top d top) cs
unfolding remove_last_func_call read_history
remove_last_func_call-HasHistory d s c cs h =
    let (two, addr, count, (base, w, r)) = h.calls in
    let size = Words-base d.call_history c.args (d.call_history_top - 2) base w in
    let first : sub_word d.call_history_top 2 ≡ d.call_history_top - 2 =
      omega (arith, h.fits, h.size_int) in
    let second : sub_word (d.call_history_top - 2) (length c.args) ≡ base =
      omega (arith, h.fits, h.size_int) in
    let inside : ltb (d.call_history_top - 2) d.history_allocated ≡ true =
      ground (arith, h.fits, h.allocated) in
    (
      base,
      rw (first, inside, count, second) refl,
      record {
        fits = omega (arith, h.fits);
        allocated = h.allocated;
        size_int = h.size_int;
        calls = r;
      },
    )
