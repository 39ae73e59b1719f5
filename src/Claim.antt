-- ===== src/Claim.antt =====
-- Mapped arrays, src/marr.c: the operations that may run the garbage collector.
pub mod Free
pub mod Kept
pub mod Sound
pub mod Words
use integer_java_virtual_mac.Base.{
  ℕ, zero, suc, ◌+◌, Bool, false, true, not, ◌&&◌, ◌==◌, ltb, leb, if◌then◌else◌, length, some,
  none,
}
use integer_java_virtual_mac.Base.Word.{minus_one}
use integer_java_virtual_mac.Machine.{
  MArr, Vm, zero_size, smaller_size, size_limit, no_memory, ok, exit, out_of_fuel, M, pure, ◌>>=◌,
  ◌>>◌, stop_if, modify, alloc,
}
use integer_java_virtual_mac.Marr.{Global, no_slots, fill}
use integer_java_virtual_mac.Collector.{arr_gc}

-- The search of `get_free_index` over the slots that are left: the first one that is not in use.
unfoldable pub first_free : ℕ → ℕ → (ℕ → Bool) → ℕ
first_free zero i map = minus_one
first_free (suc n) i map = let rest = first_free n (i + 1) map in if map i then rest else i

-- Every hundredth search collects the garbage first, whichever mapped array it is about.
unfoldable pub count_creation : M (Unit {0})
count_creation s =
    if leb 100 s.element_creations
    then (arr_gc >> pure tt) (record s { element_creations = 0 })
    else ok tt (record s { element_creations = s.element_creations + 1 })

-- A larger block, with the old slots copied and the new ones cleared.
abbrev pub grow : {A : Type 0} → MArr A → ℕ → MArr A
grow m n = record {
  size = n;
  map = λ i. if ltb i m.size then m.map i else false;
  values = λ i. if ltb i m.size then m.values i else none;
}

module _ {A : Type 0} (g : Global A) where
  unfoldable pub get_free_index : M ℕ
  get_free_index = do count_creation; λ s. let m = g.get s in ok (first_free m.size 0 m.map) s

  unfoldable pub marr_add_element : A → M ℕ
  marr_add_element a = do
    i ← get_free_index
    if i == minus_one then pure i else (do modify (λ s. g.put (fill (g.get s) i a) s); pure i)

  -- `marr_resize`, whose call of itself after a failed allocation takes fuel.
  unfoldable pub resize_retry : ℕ → ℕ → M (Unit {0})
  resize_retry zero n = λ _. out_of_fuel
  resize_retry (suc fuel) n = do
    s ← (λ t. ok t t)
    stop_if (ltb n (g.get s).size) smaller_size
    stop_if (leb minus_one n) size_limit
    map ← alloc
    values ← alloc
    if map && values
        then modify (λ t. g.put (grow (g.get t) n) t)
        else (do freed ← arr_gc; if freed == 0 then exit no_memory else resize_retry fuel n)

  -- Every failure uses up an answer of the allocator.
  unfoldable pub marr_resize : ℕ → M (Unit {0})
  marr_resize n s = resize_retry (suc (length s.heap_answers)) n s

  unfoldable pub marr_init : ℕ → M (Unit {0})
  marr_init n = do modify (g.put no_slots); stop_if (n == 0) zero_size; marr_resize n
