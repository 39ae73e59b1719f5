-- ===== src/Claim/Free.antt =====
-- `get_free_index` and `marr_add_element` of src/marr.c: the lowest free slot.
use integer_java_virtual_mac.Base.{
  ℕ, zero, suc, ◌+◌, ◌≤◌, ◌<◌, ◌≡◌, refl, Bool, true, false, ◌⊎◌, inl, inr, Bool-cases, lt→leb,
  ne→==, ◌==◌, arith,
}
use integer_java_virtual_mac.Base.Word.{minus_one}
use integer_java_virtual_mac.Machine.{Vm, MArr, ok}
use integer_java_virtual_mac.Marr.{Global, fill}
use integer_java_virtual_mac.Claim.{first_free, count_creation, get_free_index, marr_add_element}

-- All of the `n` slots from `i` on are in use.
abbrev pub Full : (ℕ → Bool) → ℕ → ℕ → Type 0
Full map n i = (j : ℕ) → i ≤ j → j < i + n → map j ≡ true

-- `f` is the lowest free slot from `i` on.
pub record IsLowest (map : ℕ → Bool) (n i f : ℕ) : Type 0 where
  pub from : i ≤ f
  pub inside : f < i + n
  pub free : map f ≡ false
  pub lowest : (j : ℕ) → i ≤ j → j < f → map j ≡ true

pub first_free-cases :
    (n i : ℕ) (map : ℕ → Bool)
    → ((first_free n i map ≡ minus_one) × Full map n i) ⊎ IsLowest map n i (first_free n i map)
unfolding first_free
first_free-cases zero i map = inl (refl, λ j p q. absurd (omega arith))
first_free-cases (suc n) i map = elim (Bool-cases (map i)) [
  | inl used ↦ elim (first_free-cases n (i + 1) map) [
    | inl (e, full) ↦ inl (rw used e, λ j p q. ground (arith, full j))
    | inr k ↦ inr (
        rw used (record {
          from = omega (arith, k.from);
          inside = omega (arith, k.inside);
          free = k.free;
          lowest = λ j p q. ground (arith, k.lowest j);
        }))
  ]
  | inr free ↦ inr (
      rw free (record {
        from = omega arith;
        inside = omega arith;
        free = free;
        lowest = λ j p q. absurd (omega arith);
      }))
]

-- A field of the machine: what is put is what is got, and the count of creations is another field.
pub record IsField {A : Type 0} (g : Global A) : Type 0 where
  pub get_put : (m : MArr A) (s : Vm) → g.get (g.put m s) ≡ m
  pub get_creations : (n : ℕ) (s : Vm) → g.get (record s { element_creations = n }) ≡ g.get s

abbrev pub created : Vm → Vm
created s = record s { element_creations = s.element_creations + 1 }

module _ {A : Type 0} (g : Global A) (field : IsField g) where
  get_free_index-created :
      (s : Vm)
      → s.element_creations < 100
      → get_free_index g s ≡ ok (first_free (g.get s).size 0 (g.get s).map) (created s)
  unfolding get_free_index count_creation
  get_free_index-created s few = rw (lt→leb 100 s.element_creations few, field.get_creations)

  -- `marr_add_element` on a mapped array that is a field of the machine and has fewer than 2 ^ 32
  -- slots, where no collection is due: the element goes into the lowest free slot, whose index is
  -- the result, or all slots are in use, the result is the maximal index and only the count of
  -- searches changes.
  pub marr_add_element-cases :
      (s : Vm) (a : A)
      → s.element_creations < 100
      → (g.get s).size ≤ minus_one
      → (Full (g.get s).map (g.get s).size 0 × (marr_add_element g a s ≡ ok minus_one (created s)))
        ⊎ ((f : ℕ) × IsLowest (g.get s).map (g.get s).size 0 f
            × (marr_add_element g a s ≡ ok f (g.put (fill (g.get s) f a) (created s))))
  unfolding marr_add_element
  marr_add_element-cases s a few size = elim (first_free-cases (g.get s).size 0 (g.get s).map) [
    | inl (e, full) ↦ inl (full, rw (get_free_index-created s few, e))
    | inr k ↦
        let f = first_free (g.get s).size 0 (g.get s).map in
        let proper : (f == minus_one) ≡ false = ne→== f minus_one (omega (arith, k.inside)) in
        inr (
          f,
          k,
          rw (
            get_free_index-created s few,
            proper,
            field.get_creations (s.element_creations + 1) s,
          ),
        )
  ]
