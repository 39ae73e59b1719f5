-- ===== src/Arrays/Refine.antt =====
-- Reads and writes of elements, src/array.c, against the store of elements.
use mathlib.Core.Option
use mathlib.Core.Path.{fun_ext}
use integer_java_virtual_mac.Base.{
  ℕ, ◌+◌, ◌<◌, ◌≡◌, refl, true, false, ◌&&◌, Option, none, some, List, [], ◌∷◌, inl, inr,
  Bool-cases, leb, ltb, ◌==◌, if◌then◌else◌, arith,
}
use integer_java_virtual_mac.Base.Word.{wrap}
use integer_java_virtual_mac.Refs.{arr_tag, ref_to_index, is_ref}
use integer_java_virtual_mac.Machine.{Vm, Block, Error, Run, ok, exit, M, and_then}
use integer_java_virtual_mac.Marr.{marr_get_element}
use integer_java_virtual_mac.Marr.Slots.{Holds, Holds-write}
use integer_java_virtual_mac.Arrays.{arr_check_bounds, arr_get, arr_set}
use integer_java_virtual_mac.Arrays.Access.{Points, arr_get_lem, arr_set_lem, stored}
use integer_java_virtual_mac.Arrays.Sequence.{
  Access, read, write, access, access_all, Store, store_of, lookup, put, meaning, meaning_then,
  meaning_all,
}

-- A whole block, whose count is a positive `int`.
pub record IsSized (b : Block) : Type 0 where
  pub whole : b.allocated ≡ b.cells 0 + 1
  pub count_int : b.cells 0 < 0x8000_0000

abbrev pub HasSized : Vm → Type 0
HasSized s = Holds IsSized s.arr_mem

-- A run against what it means: the same result and the store that the machine then stands for, or
-- a message where there is no result.
pub data Agrees {A : Type 0} : Option (A × Store) → Run A → Type 0 where
  agrees :
      {a : A} {m : Store} {t : Vm} → store_of t ≡ m → HasSized t → Agrees (some (a, m)) (ok a t)
  refuses : {e : Error} {t : Vm} → Agrees none (exit e t)

module _ (r i : ℕ) (s : Vm) where
  -- Only the low 32 bits of an index count.
  arr_get-wrap : arr_get r (wrap i) s ≡ arr_get r i s
  unfolding arr_get arr_check_bounds
  arr_get-wrap = let e : wrap (wrap i + 1) ≡ wrap (i + 1) = omega arith in rw e refl

  arr_set-wrap : (v : ℕ) → arr_set r (wrap i) v s ≡ arr_set r i v s
  unfolding arr_set arr_check_bounds
  arr_set-wrap v = let e : wrap (wrap i + 1) ≡ wrap (i + 1) = omega arith in rw e refl

-- A word that does not refer to an array in use is refused with a message.
data IsRefused {A : Type 0} : Run A → Type 0 where
  refused : {e : Error} {t : Vm} → IsRefused (exit e t)

module _ (r i : ℕ) (s : Vm)
    (bad : (is_ref arr_tag r && s.arr_mem.map (ref_to_index r)) ≡ false) where
  arr_check_bounds-IsRefused :
      {A : Type 0} (k : Unit {0} → M A) → IsRefused (and_then (arr_check_bounds r i s) k)
  unfolding arr_check_bounds marr_get_element
  arr_check_bounds-IsRefused k = elim (Bool-cases (is_ref arr_tag r)) [
    | inr other ↦ rw other refused
    | inl ref ↦
        let free : s.arr_mem.map (ref_to_index r) ≡ false = ground arith in
        elim (Bool-cases (leb s.arr_mem.size (ref_to_index r))) [
          | inl out ↦ rw (ref, out) refused
          | inr inside ↦ rw (ref, inside, free) refused
        ]
  ]

refused-Agrees : {A : Type 0} {r : Run A} → IsRefused r → Agrees none r
refused-Agrees refused = refuses

store-stored :
    (s : Vm) (j i v : ℕ) (b : Block)
    → s.arr_mem.map j ≡ true
    → s.arr_mem.values j ≡ some b
    → i < b.cells 0
    → store_of (stored s j b (i + 1) v) ≡ put (store_of s) j i v
store-stored s j i v b used held lt = fun_ext λ k. fun_ext λ l. elim (Bool-cases (k == j)) [
  | inl same ↦ let e : k ≡ j = ground arith in ground (arith, e, same)
  | inr other ↦ rw other refl
]

module _ (r i : ℕ) (s : Vm) (b : Block) (p : Points s r b) where
  lookup-Points :
      lookup (store_of s) r i
      ≡ (if ltb (wrap i) (b.cells 0) then some (b.cells (wrap i + 1)) else none)
  lookup-Points = rw (p.format, p.in_use, p.held) refl

  arr_get-Agrees : HasSized s → Agrees (meaning (read r i) (store_of s)) (arr_get r i s)
  arr_get-Agrees h =
      rw (lookup-Points, ← arr_get-wrap r i s, arr_get_lem s r b p (wrap i) (omega arith))
        (elim (Bool-cases (ltb (wrap i) (b.cells 0))) [
          | inl inside ↦ rw inside (agrees refl h)
          | inr outside ↦ rw outside refuses
        ])

  arr_set-Agrees :
      (v : ℕ) → HasSized s → Agrees (meaning (write r i v) (store_of s)) (access (write r i v) s)
  unfolding access
  arr_set-Agrees v h =
      rw (lookup-Points, ← arr_set-wrap r i s v, arr_set_lem s r b p (wrap i) v (omega arith))
        (elim (Bool-cases (ltb (wrap i) (b.cells 0))) [
          | inl inside ↦ rw inside (
              agrees (store-stored s (ref_to_index r) (wrap i) v b p.in_use p.held (ground arith)) (
                Holds-write s.arr_mem (ref_to_index r) _
                  (record {
                    whole = ground (arith, p.allocated);
                    count_int = ground (arith, p.count_int);
                  })
                  h))
          | inr outside ↦ rw outside refuses
        ])

IsRefused-bind : {A B : Type 0} {r : Run A} (k : A → M B) → IsRefused r → IsRefused (and_then r k)
IsRefused-bind k refused = refused

-- The reference of an access.
abbrev target : Access → ℕ
target (read r i) = r
target (write r i v) = r

no_meaning :
    (a : Access) (s : Vm)
    → (is_ref arr_tag (target a) && s.arr_mem.map (ref_to_index (target a))) ≡ false
    → meaning a (store_of s) ≡ none
no_meaning (read r i) s bad = ground arith
no_meaning (write r i v) s bad = ground arith

access-IsRefused :
    (a : Access) (s : Vm)
    → (is_ref arr_tag (target a) && s.arr_mem.map (ref_to_index (target a))) ≡ false
    → IsRefused (access a s)
unfolding access arr_get arr_set
access-IsRefused (read r i) s bad = arr_check_bounds-IsRefused r i s bad _
access-IsRefused (write r i v) s bad = IsRefused-bind _ (arr_check_bounds-IsRefused r i s bad _)

Points-access :
    (r : ℕ) (s : Vm)
    → HasSized s
    → (is_ref arr_tag r && s.arr_mem.map (ref_to_index r)) ≡ true
    → (b : Block) × Points s r b
Points-access r s h good =
    let used : s.arr_mem.map (ref_to_index r) ≡ true = ground arith in
    let (lt, b, held, k) = h (ref_to_index r) used in
    (
      b,
      record {
        format = ground arith;
        in_range = lt;
        in_use = used;
        held = held;
        allocated = k.whole;
        count_int = k.count_int;
      },
    )

good-Agrees :
    (a : Access) (s : Vm)
    → HasSized s
    → (is_ref arr_tag (target a) && s.arr_mem.map (ref_to_index (target a))) ≡ true
    → Agrees (meaning a (store_of s)) (access a s)
unfolding access
good-Agrees (read r i) s h good =
    let (b, p) = Points-access r s h good in arr_get-Agrees r i s b p h
good-Agrees (write r i v) s h good =
    let (b, p) = Points-access r s h good in arr_set-Agrees r i s b p v h

access-Agrees : (a : Access) (s : Vm) → HasSized s → Agrees (meaning a (store_of s)) (access a s)
unfolding access
access-Agrees a s h =
    elim (Bool-cases (is_ref arr_tag (target a) && s.arr_mem.map (ref_to_index (target a)))) [
      | inr bad ↦ rw (no_meaning a s bad) (refused-Agrees (access-IsRefused a s bad))
      | inl good ↦ good-Agrees a s h good
    ]

-- The results of the accesses behind one, put together.
Agrees-cons :
    (v : ℕ) {o : Option (List ℕ × Store)} {r : Run (List ℕ)}
    → Agrees o r
    → Agrees (Option.map (λ (vs, m). (v ∷ vs, m)) o) (and_then r λ vs. ok (v ∷ vs))
Agrees-cons v (agrees e h) = agrees e h
Agrees-cons v refuses = refuses

Agrees-then :
    {o : Option (ℕ × Store)} {r : Run ℕ} (rest : List Access)
    → Agrees o r
    → ((t : Vm) → HasSized t → Agrees (meaning_all rest (store_of t)) (access_all rest t))
    → Agrees
        (meaning_then o (meaning_all rest))
        (and_then r λ v t. and_then (access_all rest t) λ vs. ok (v ∷ vs))
Agrees-then rest (agrees {t} e h) next = rw (← e) (Agrees-cons _ (next t h))
Agrees-then rest refuses next = refuses

-- Any sequence of reads and writes of elements, by any words as references, indices and values, on
-- a machine whose slots in use hold whole blocks with counts below 2 ^ 31, does what it means to a
-- store that maps slots and indices to words: it returns the results of the reads, every one the
-- last word written to that element or its first, leaves the store that the writes make, and gives
-- up with a message exactly if an access has no element there.
pub access_all-Agrees :
    (sequence : List Access) (s : Vm)
    → HasSized s
    → Agrees (meaning_all sequence (store_of s)) (access_all sequence s)
unfolding access_all
access_all-Agrees [] s h = agrees refl h
access_all-Agrees (a ∷ rest) s h = Agrees-then rest (access-Agrees a s h) (access_all-Agrees rest)
