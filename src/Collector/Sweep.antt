-- ===== src/Collector/Sweep.antt =====
-- The sweeping phase of src/array.c: unmarked slots are emptied and counted.
use integer_java_virtual_mac.Base.{
  ℕ, zero, suc, ◌+◌, ◌≤◌, ◌<◌, ◌≡◌, refl, Bool, true, ◌&&◌, ◌||◌, not, inl, inr, leb, ltb,
  if◌then◌else◌, ◌∙◌, Bool-cases, lt→leb, arith,
}
use integer_java_virtual_mac.Machine.{Vm, MArr, Block, Error, Ends, returns, Ends-bind, ok}
use integer_java_virtual_mac.Marr.{clear, marr_check_marked, marr_get_element, marr_remove_element}
use integer_java_virtual_mac.Collector.{Marks, arr_remove, sweep_slot, sweep_arrays}

-- How many of the `n` slots from `i` on are in use.
pub count_used : (ℕ → Bool) → ℕ → ℕ → ℕ
count_used map zero i = 0
count_used map (suc n) i = (if map i then 1 else 0) + count_used map n (i + 1)

count_used-ext :
    (f g : ℕ → Bool) (n i : ℕ) → ((j : ℕ) → i ≤ j → f j ≡ g j) → count_used f n i ≡ count_used g n i
unfolding count_used
count_used-ext f g zero i h = refl
count_used-ext f g (suc n) i h =
    ground (arith, h i (omega arith), count_used-ext f g n (i + 1) (λ j p. h j (omega arith)))

abbrev pub with_arrays : Vm → MArr Block → Vm
with_arrays s u = record s { arr_mem = u }

-- A slot survives if it is marked or not among the `n` slots from `i` on.
abbrev pub kept : Marks → ℕ → ℕ → ℕ → Bool
kept m n i j = m j || not (leb i j && ltb j (i + n))

-- The machine after the slots have been swept, `a` of which were emptied.
pub record IsSwept (m : Marks) (n i : ℕ) (old new : MArr Block) (a : ℕ) : Type 0 where
  pub same_size : new.size ≡ old.size
  pub used : (j : ℕ) → new.map j ≡ (old.map j && kept m n i j)
  pub untouched : (j : ℕ) → new.map j ≡ true → new.values j ≡ old.values j
  pub counted : a + count_used new.map n i ≡ count_used old.map n i

abbrev pub Swept : Marks → ℕ → ℕ → Vm → ℕ → Vm → Type 0
Swept m n i s a t = (u : MArr Block) × (t ≡ with_arrays s u) × IsSwept m n i s.arr_mem u a

abbrev pub Never : Error → Vm → Type 0
Never _ _ = ⊥

arr_remove-ok :
    (s : Vm) (i : ℕ)
    → i < s.arr_mem.size
    → s.arr_mem.map i ≡ true
    → arr_remove i s ≡ ok tt (with_arrays s (clear s.arr_mem i))
unfolding arr_remove marr_get_element marr_remove_element
arr_remove-ok s i lt used = ground arith

sweep_slot-Ends :
    (s : Vm) (m : Marks) (i : ℕ)
    → i < s.arr_mem.size
    → Ends (Swept m 1 i s) Never (sweep_slot m i s)
unfolding sweep_slot marr_check_marked count_used
sweep_slot-Ends s m i lt = elim (Bool-cases (m i)) [
  | inl marked ↦ rw marked (
      returns (
        s.arr_mem,
        refl,
        record {
          same_size = refl;
          used = λ j. ground arith;
          untouched = λ j h. refl;
          counted = ground arith;
        },
      ))
  | inr bare ↦ elim (Bool-cases (s.arr_mem.map i)) [
    | inl used ↦
        rw (bare, lt→leb s.arr_mem.size i lt, used, arr_remove-ok s i lt used)
          (returns (
            clear s.arr_mem i,
            refl,
            record {
              same_size = refl;
              used = λ j. ground arith;
              untouched = λ j h. ground arith;
              counted = ground arith;
            },
          ))
    | inr free ↦
        rw (bare, lt→leb s.arr_mem.size i lt, free)
          (returns (
            s.arr_mem,
            refl,
            record {
              same_size = refl;
              used = λ j. ground arith;
              untouched = λ j h. refl;
              counted = ground arith;
            },
          ))
  ]
]

-- One slot, and then the slots behind it.
IsSwept-trans :
    (m : Marks) (n i : ℕ) (old mid new : MArr Block) (a b : ℕ)
    → IsSwept m 1 i old mid a
    → IsSwept m n (i + 1) mid new b
    → IsSwept m (suc n) i old new (a + b)
unfolding count_used
IsSwept-trans m n i old mid new a b w w' = record {
  same_size = w'.same_size ∙ w.same_size;
  used = λ j. ground (arith, w.used j, w'.used j);
  untouched = λ j h. ground (arith, w.untouched j, w'.untouched j, w'.used j);
  counted = ground (
    arith,
    w.counted,
    w'.counted,
    w'.used i,
    count_used-ext mid.map old.map n (i + 1) (λ j p. ground (arith, w.used j)),
  );
}

pub sweep_arrays-Ends :
    (s : Vm) (m : Marks) (n i : ℕ)
    → i + n ≤ s.arr_mem.size
    → Ends (Swept m n i s) Never (sweep_arrays m n i s)
unfolding sweep_arrays count_used
sweep_arrays-Ends s m zero i fits = returns (
  s.arr_mem,
  refl,
  record { same_size = refl; used = λ j. ground arith; untouched = λ j h. refl; counted = refl },
)
sweep_arrays-Ends s m (suc n) i fits =
    Ends-bind (sweep_slot-Ends s m i (omega arith)) λ a t (u, e, w). rw e (
      Ends-bind (sweep_arrays-Ends (with_arrays s u) m n (i + 1) (omega (arith, w.same_size)))
        λ b t' (u', e', w').
          rw e' (returns (u', refl, IsSwept-trans m n i s.arr_mem u u' a b w w')))
