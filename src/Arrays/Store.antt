-- ===== src/Arrays/Store.antt =====
-- `arr_store` of src/array.c: a block in a slot that was free, after the slots are doubled if need
-- be.
use native.Mathlib.Decide.{dec_le}
use integer_java_virtual_mac.Base.{
  ℕ, ◌+◌, ◌*◌, ◌≤◌, ◌<◌, ◌≡◌, refl, ◌≢◌, true, false, some, inl, inr, ◌==◌, lt→leb, le→ltb, ne→==,
  ap, arith,
}
use integer_java_virtual_mac.Base.Word.{wrap, minus_one}
use integer_java_virtual_mac.Machine.{Vm, MArr, Block, ok, AllocSucceeds, alloc-AllocSucceeds}
use integer_java_virtual_mac.Marr.{Global, arr_mem, fill}
use integer_java_virtual_mac.Claim.{grow, resize_retry, marr_resize, marr_add_element}
use integer_java_virtual_mac.Claim.Free.{Full, IsLowest, IsField, created, marr_add_element-cases}
use integer_java_virtual_mac.Arrays.{store_element}

module _ {A : Type 0} (g : Global A) where
  pub marr_resize-ok :
      (s : Vm) (n : ℕ)
      → AllocSucceeds s
      → (g.get s).size ≤ n
      → n < minus_one
      → marr_resize g n s ≡ ok tt (g.put (grow (g.get s) n) s)
  unfolding marr_resize resize_retry
  marr_resize-ok s n h larger limit = rw (
    le→ltb n (g.get s).size larger,
    lt→leb minus_one n limit,
    alloc-AllocSucceeds s h,
    alloc-AllocSucceeds s h,
  )

abbrev pub arr_mem-IsField : IsField arr_mem
arr_mem-IsField = record { get_put = λ m s. refl; get_creations = λ n s. refl }

-- The machine with other slots, after `k` more creations.
abbrev pub renewed : Vm → MArr Block → ℕ → Vm
renewed s u k = record s { arr_mem = u; element_creations = s.element_creations + k }

-- Slot `f` is new and holds `b`; the other slots are as they were, or free if they are new.
pub record IsStored (old : MArr Block) (b : Block) (f : ℕ) (u : MArr Block) : Type 0 where
  pub inside : f < u.size
  pub reachable : f ≤ 0x10_0000
  pub grows : old.size ≤ u.size
  pub used : u.map f ≡ true
  pub held : u.values f ≡ some b
  pub was_free : f < old.size → old.map f ≡ false
  pub next : f ≤ old.size
  pub before : (j : ℕ) → j < f → old.map j ≡ true
  pub others : (j : ℕ) → j < old.size → j ≢ f → (u.map j ≡ old.map j) × (u.values j ≡ old.values j)
  pub new_free : (j : ℕ) → old.size ≤ j → j < u.size → j ≢ f → u.map j ≡ false

abbrev pub Stored : Vm → Block → ℕ → Vm → Type 0
Stored s b f t =
    (u : MArr Block) × (k : ℕ) × (t ≡ renewed s u k) × (k ≤ 2) × IsStored s.arr_mem b f u

pub fill-IsStored :
    (m : MArr Block) (b : Block) (f : ℕ)
    → m.size ≤ 0x10_0000
    → IsLowest m.map m.size 0 f
    → IsStored m b f (fill m f b)
fill-IsStored m b f small k = record {
  inside = omega (arith, k.inside);
  reachable = omega (arith, k.inside);
  grows = omega arith;
  used = ground arith;
  held = ground arith;
  was_free = λ h. k.free;
  next = omega (arith, k.inside);
  before = λ j lt. k.lowest j (omega arith) lt;
  others = λ j h ne. (ground arith, ground arith);
  new_free = λ j h h' ne. absurd (omega arith);
}

-- The lowest free slot of doubled slots is the first new one, if not an old one.
grow-next : (m : MArr Block) (n f : ℕ) → m.size < n → IsLowest (grow m n).map n 0 f → f ≤ m.size
grow-next m n f larger k = elim (dec_le f m.size) [
  | yes le ↦ le
  | no over ↦ absurd (ground (arith, k.lowest m.size))
]

fill-grow-IsStored :
    (m : MArr Block) (b : Block) (n f : ℕ)
    → m.size ≤ 0x10_0000
    → m.size < n
    → Full m.map m.size 0
    → IsLowest (grow m n).map n 0 f
    → IsStored m b f (fill (grow m n) f b)
fill-grow-IsStored m b n f small larger full k = record {
  inside = omega (arith, k.inside);
  reachable = omega (arith, grow-next m n f larger k);
  grows = omega arith;
  used = ground arith;
  held = ground arith;
  was_free = λ h. ground (arith, k.free, full f);
  next = grow-next m n f larger k;
  before = λ j lt. full j (omega arith) (omega (arith, grow-next m n f larger k));
  others = λ j h ne. (ground arith, ground arith);
  new_free = λ j h h' ne. ground arith;
}

store_element-grow :
    (s : Vm) (b : Block)
    → AllocSucceeds s
    → s.element_creations < 99
    → 0 < s.arr_mem.size
    → s.arr_mem.size ≤ 0x10_0000
    → Full s.arr_mem.map s.arr_mem.size 0
    → marr_add_element arr_mem b s ≡ ok minus_one (created s)
    → (f : ℕ) × (t : Vm) × (store_element b s ≡ ok f t) × Stored s b f t
unfolding store_element
store_element-grow s b h few pos small full e =
    let n = s.arr_mem.size * 2 in
    let s₁ = record s { arr_mem = grow s.arr_mem n; element_creations = s.element_creations + 1 } in
    let doubled : wrap (s.arr_mem.size * 2) ≡ n = omega arith in
    let resized = marr_resize-ok arr_mem (created s) n h (omega arith) (omega arith) in
    elim (marr_add_element-cases arr_mem arr_mem-IsField s₁ b (omega arith) (omega arith)) [
      | inl (full', e') ↦ absurd (ground (arith, full' s.arr_mem.size))
      | inr (f, k, e') ↦ (
        f,
        record s {
          arr_mem = fill (grow s.arr_mem n) f b;
          element_creations = s.element_creations + 1 + 1;
        },
        rw (e, doubled, resized, e'),
        (
          fill (grow s.arr_mem n) f b,
          2,
          ap (λ (c : ℕ). record s { arr_mem = fill (grow s.arr_mem n) f b; element_creations = c })
              (omega arith),
          omega arith,
          fill-grow-IsStored s.arr_mem b n f small (omega arith) full k,
        ),
      )
    ]

pub store_element-Ends :
    (s : Vm) (b : Block)
    → AllocSucceeds s
    → s.element_creations < 99
    → 0 < s.arr_mem.size
    → s.arr_mem.size ≤ 0x10_0000
    → (f : ℕ) × (t : Vm) × (store_element b s ≡ ok f t) × Stored s b f t
unfolding store_element
store_element-Ends s b h few pos small =
    elim (marr_add_element-cases arr_mem arr_mem-IsField s b (omega arith) (omega arith)) [
      | inr (f, k, e) ↦
          let proper : (f == minus_one) ≡ false = ne→== f minus_one (omega (arith, k.inside)) in
          (
            f,
            renewed s (fill s.arr_mem f b) 1,
            rw (e, proper),
            (fill s.arr_mem f b, 1, refl, omega arith, fill-IsStored s.arr_mem b f small k),
          )
      | inl (full, e) ↦ store_element-grow s b h few pos small full e
    ]
