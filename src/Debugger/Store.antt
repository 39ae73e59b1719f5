-- ===== src/Debugger/Store.antt =====
-- `store_func_call` of src/ijdb.c: a call that is about to be made goes onto the call history.
use mathlib.Core.Path.{subst}
use integer_java_virtual_mac.Base.{
  ℕ, zero, suc, ◌+◌, ◌-◌, ◌≤◌, ◌<◌, ◌≡◌, refl, ap, ltb, lt→ltb, List, [], ◌∷◌, length, true,
  Bool-cases, inl, inr, ◌⊎◌, arith,
}
use integer_java_virtual_mac.Base.Word.{sub_word, wrap}
use integer_java_virtual_mac.Machine.{
  Vm, ok, update, read_stack, AllocSucceeds, alloc-AllocSucceeds,
}
use integer_java_virtual_mac.Debugger.{Dbg, push_history, store_args, history_room}
use integer_java_virtual_mac.Debugger.Calls.{Words}

-- The `n` words on top of the stack, the lowest one first.
abbrev pub top_words : Vm → ℕ → List ℕ
top_words s zero = []
top_words s (suc n) = s.cpu.stack (s.cpu.sp - n) ∷ top_words s n

pub length-top_words : (s : Vm) (n : ℕ) → length (top_words s n) ≡ n
length-top_words s zero = refl
length-top_words s (suc n) = omega (arith, length-top_words s n)

-- The debugger with another history.
abbrev pub with_history : Dbg → (ℕ → ℕ) → ℕ → ℕ → Dbg
with_history d h top size = record d {
  call_history = h;
  call_history_top = top;
  call_history_size = size;
  history_allocated = size;
}

pub push_history-ok :
    (d : Dbg) (s : Vm) (v : ℕ) (h : ℕ → ℕ) (top size : ℕ)
    → top < size
    → push_history v (with_history d h top size) s
      ≡ ok (tt, with_history d (update h top v) (top + 1) size) s
unfolding push_history
push_history-ok d s v h top size lt = rw (lt→ltb top size lt) refl

-- What the copy of `n` arguments from number `i` on leaves in the history `h'`.
pub record HasArgs (s : Vm) (n i top : ℕ) (h h' : ℕ → ℕ) : Type 0 where
  pub below : (j : ℕ) → j < top → h' j ≡ h j
  pub copied : (k : ℕ) → k < n → h' (top + k) ≡ s.cpu.stack (s.cpu.sp - (i + k))

HasArgs-step :
    (s : Vm) (n i top : ℕ) (h h' : ℕ → ℕ)
    → HasArgs s n (i + 1) (top + 1) (update h top (s.cpu.stack (s.cpu.sp - i))) h'
    → HasArgs s (suc n) i top h h'
HasArgs-step s n i top h h' w = record {
  below = λ j lt. ground (arith, w.below j);
  copied = λ k. step_at k;
}
  where
    step_at : (k : ℕ) → k < suc n → h' (top + k) ≡ s.cpu.stack (s.cpu.sp - (i + k))
    step_at zero lt = ground (arith, w.below top)
    step_at (suc k) lt =
        let e : top + suc k ≡ top + 1 + k = omega arith in
        let e' : i + suc k ≡ i + 1 + k = omega arith in rw (e, e') (w.copied k (omega arith))

store_args-step :
    (n i : ℕ) (d : Dbg) (s : Vm) (h h' : ℕ → ℕ) (top size : ℕ)
    → top < size
    → i ≤ s.cpu.sp
    → s.cpu.sp < s.cpu.stack_size
    → s.cpu.stack_size < 0x8000_0000
    → store_args n
        (i + 1)
        (with_history d (update h top (s.cpu.stack (s.cpu.sp - i))) (top + 1) size)
        s
      ≡ ok (tt, with_history d h' (top + suc n) size) s
    → store_args (suc n) i (with_history d h top size) s
      ≡ ok (tt, with_history d h' (top + suc n) size) s
unfolding store_args read_stack
store_args-step n i d s h h' top size fits enough room int e =
    let at : sub_word s.cpu.sp i ≡ s.cpu.sp - i = omega arith in
    rw
      (
        at,
        lt→ltb (s.cpu.sp - i) s.cpu.stack_size (omega arith),
        push_history-ok d s (s.cpu.stack (s.cpu.sp - i)) h top size fits,
      )
      e

pub store_args-ok :
    (n i : ℕ) (d : Dbg) (s : Vm) (h : ℕ → ℕ) (top size : ℕ)
    → top + n ≤ size
    → i + n ≤ s.cpu.sp + 1
    → s.cpu.sp < s.cpu.stack_size
    → s.cpu.stack_size < 0x8000_0000
    → (h' : ℕ → ℕ) × (store_args n i (with_history d h top size) s
        ≡ ok (tt, with_history d h' (top + n) size) s)
      × HasArgs s n i top h h'
unfolding store_args
store_args-ok zero i d s h top size fits enough room int =
    let e : top ≡ top + 0 = omega arith in
    (
      h,
      ap (λ (t : ℕ). ok (tt, with_history d h t size) s) e,
      record { below = λ j lt. refl; copied = λ k lt. absurd (omega arith) },
    )
store_args-ok (suc n) i d s h top size fits enough room int =
    let g = update h top (s.cpu.stack (s.cpu.sp - i)) in
    let (h', e, w) =
      store_args-ok n (i + 1) d s g (top + 1) size (omega arith) (omega arith) room int in
    let sum : top + 1 + n ≡ top + suc n = omega arith in
    let e' =
      subst
        (λ (t : ℕ).
          store_args n (i + 1) (with_history d g (top + 1) size) s
          ≡ ok (tt, with_history d h' t size) s)
        sum e in
    (
      h',
      store_args-step n i d s h h' top size (omega arith) (omega arith) room int e',
      HasArgs-step s n i top h h' w,
    )

-- The copied words are the top of the stack, the lowest one uppermost.
pub Words-copied :
    (s : Vm) (n base : ℕ) (h h' : ℕ → ℕ)
    → HasArgs s n 0 base h h'
    → Words h' (base + n) (top_words s n) base
Words-copied s zero base h h' w = omega arith
Words-copied s (suc n) base h h' w =
    let last : base + suc n - 1 ≡ base + n = omega arith in
    let number : 0 + n ≡ n = omega arith in
    let less : HasArgs s n 0 base h h' = record {
      below = w.below;
      copied = λ k lt. w.copied k (omega arith);
    } in
    (
      omega arith,
      rw last (
          subst (λ (k : ℕ). h' (base + n) ≡ s.cpu.stack (s.cpu.sp - k)) number
            (w.copied n (omega arith))),
      rw last (Words-copied s n base h h' less),
    )

-- Room for `need` more elements, at the old size or a larger one.
pub history_room-ok :
    (need : ℕ) (d : Dbg) (s : Vm)
    → AllocSucceeds s
    → d.history_allocated ≡ d.call_history_size
    → d.call_history_top + need + 1024 < 0x1_0000_0000
    → (size : ℕ) × (history_room need d s
        ≡ ok (true, with_history d d.call_history d.call_history_top size) s)
      × (d.call_history_top + need ≤ size)
      × ((size ≡ d.call_history_size) ⊎ (size < 0x1_0000_0000))
unfolding history_room
history_room-ok need d s h allocated small =
    let sum : wrap (d.call_history_top + need) ≡ d.call_history_top + need = omega arith in
    elim (Bool-cases (ltb d.call_history_size (d.call_history_top + need))) [
      | inl full ↦
          let size = d.call_history_top + need + 1024 in
          let larger : wrap (d.call_history_top + need + 1024) ≡ size = omega arith in
          (size, rw (sum, full, larger, alloc-AllocSucceeds s h) refl, omega arith, inr small)
      | inr fits ↦ (
        d.call_history_size,
        rw (sum, fits) (ap (λ (n : ℕ). ok (true, record d { history_allocated = n }) s) allocated),
        ground arith,
        inl refl,
      )
    ]
