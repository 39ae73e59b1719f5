-- ===== src/Claim/Sound.antt =====
-- The operations of src/marr.c that may collect garbage keep the invariant of the mapped arrays,
-- and `marr_resize` has fuel enough.
use integer_java_virtual_mac.Base.{
  ℕ, zero, suc, ◌+◌, ◌≤◌, ◌<◌, ◌≡◌, Bool, false, ◌∷◌, [], List, length, leb, ltb, ◌==◌, ◌&&◌, inl,
  inr, Bool-cases, if◌then◌else◌, arith,
}
use integer_java_virtual_mac.Base.Word.{minus_one}
use integer_java_virtual_mac.Machine.{
  Vm, MArr, ok, alloc, answer, later_answers, Run, and_then, pure, modify, ◌>>◌,
}
use integer_java_virtual_mac.Marr.{Global, no_slots, fill}
use integer_java_virtual_mac.Marr.Slots.{Holds, HasObjects, Holds-no_slots, Holds-fill}
use integer_java_virtual_mac.Marr.Sound.{
  Sound, sound, sound_exit, sound_fault, sound_rules, IsSlots,
}
use integer_java_virtual_mac.Collector.Sound.{arr_gc-Sound, retry-Sound}
use integer_java_virtual_mac.Claim.{
  first_free, count_creation, get_free_index, marr_add_element, grow, resize_retry, marr_resize,
  marr_init,
}
use integer_java_virtual_mac.Claim.Free.{first_free-cases}

count_creation-Sound : (s : Vm) → HasObjects s → Sound HasObjects (count_creation s)
unfolding count_creation
count_creation-Sound s h = search (sound_rules, arr_gc-Sound)

module _ {A : Type 0} {P : A → Type 0} where
  Holds-grow : (m : MArr A) (n : ℕ) → m.size ≤ n → Holds P m → Holds P (grow m n)
  Holds-grow m n le h i used = elim (Bool-cases (ltb i m.size)) [
    | inl old ↦ let (lt, a, e, p) = h i (ground arith) in (omega arith, a, rw old e, p)
    | inr new ↦ ground arith
  ]

  -- A search that found an index fills a slot below the size.
  Holds-first_free :
      (m : MArr A) (a : A)
      → P a
      → Holds P m
      → (first_free m.size 0 m.map == minus_one) ≡ false
      → Holds P (fill m (first_free m.size 0 m.map) a)
  Holds-first_free m a p h found = elim (first_free-cases m.size 0 m.map) [
    | inl (e, full) ↦ ground arith
    | inr k ↦ Holds-fill m _ a (omega (arith, k.inside)) p h
  ]

-- A failed allocation uses up an answer.
pub shorter_after_one :
    (bs : List Bool) → answer bs ≡ false → length (later_answers bs) + 1 ≡ length bs
shorter_after_one [] failed = cc
shorter_after_one (b ∷ bs) failed = omega arith

-- Where one of two allocations fails, an answer is used up.
shorter_after_two :
    (bs : List Bool)
    → (answer bs && answer (later_answers bs)) ≡ false
    → length (later_answers (later_answers bs)) + 1 ≤ length bs
shorter_after_two [] failed = cc
shorter_after_two (b ∷ []) failed = omega arith
shorter_after_two (b ∷ b' ∷ bs) failed = omega arith

module _ {A : Type 0} {P : A → Type 0} (g : Global A) (slots : IsSlots P g) where
  -- The element goes into the slot that was found, in the machine that the search left.
  fill_found-Sound :
      (a : A)
      → P a
      → (t : Vm) → HasObjects t
      → let i = first_free (g.get t).size 0 (g.get t).map in
        Sound HasObjects (
          (if i == minus_one
              then pure i
              else (modify (λ u. g.put (fill (g.get u) i a) u) >> pure i))
            t)
  fill_found-Sound a p t h =
      let m = g.get t in
      elim (Bool-cases (first_free m.size 0 m.map == minus_one)) [
        | inl full ↦ rw full (sound h)
        | inr found ↦
            rw found (sound (slots.puts _ t (Holds-first_free m a p (slots.holds t h) found) h))
      ]

  add_to-Sound :
      (a : A)
      → P a
      → {r : Run (Unit {0})} → Sound HasObjects r
      → Sound HasObjects (
          and_then (and_then r λ _ t. ok (first_free (g.get t).size 0 (g.get t).map) t) λ i.
            if i == minus_one
            then pure i
            else (modify (λ u. g.put (fill (g.get u) i a) u) >> pure i))
  add_to-Sound a p (sound h) = fill_found-Sound a p _ h
  add_to-Sound a p (sound_exit h) = sound_exit h
  add_to-Sound a p sound_fault = sound_fault

  pub marr_add_element-Sound :
      (a : A) → P a → (s : Vm) → HasObjects s → Sound HasObjects (marr_add_element g a s)
  unfolding marr_add_element get_free_index
  marr_add_element-Sound a p s h = add_to-Sound a p (count_creation-Sound s h)

  Holds-grown :
      (s : Vm) (n : ℕ) (bs : List Bool)
      → HasObjects s
      → ltb n (g.get s).size ≡ false
      → Holds P (grow (g.get (record s { heap_answers = bs })) n)
  Holds-grown s n bs h larger =
      rw (slots.apart bs s) (Holds-grow (g.get s) n (ground arith) (slots.holds s h))

  resize_retry-Sound :
      (fuel n : ℕ) (s : Vm)
      → HasObjects s
      → length s.heap_answers < fuel
      → Sound HasObjects (resize_retry g fuel n s)
  unfolding resize_retry alloc
  resize_retry-Sound zero n s h enough = absurd (omega arith)
  resize_retry-Sound (suc fuel) n s h enough = elim (Bool-cases (ltb n (g.get s).size)) [
    | inl smaller ↦ rw smaller (sound_exit h)
    | inr larger ↦ elim (Bool-cases (leb minus_one n)) [
      | inl limit ↦ rw (larger, limit) (sound_exit h)
      | inr below ↦
          let bs = s.heap_answers in
          elim (Bool-cases (answer bs && answer (later_answers bs))) [
            | inl both ↦
                rw (larger, below, both) (sound (slots.puts _ _ (Holds-grown s n _ h larger) h))
            | inr failed ↦
                rw (larger, below, failed)
                  (retry-Sound (resize_retry g fuel n) _ h λ t w.
                    resize_retry-Sound fuel n t w.objects
                      (omega (arith, w.few_answers, shorter_after_two bs failed)))
          ]
    ]
  ]

  pub marr_resize-Sound : (n : ℕ) (s : Vm) → HasObjects s → Sound HasObjects (marr_resize g n s)
  unfolding marr_resize
  marr_resize-Sound n s h = resize_retry-Sound (suc (length s.heap_answers)) n s h (omega arith)

  pub marr_init-Sound : (n : ℕ) (s : Vm) → HasObjects s → Sound HasObjects (marr_init g n s)
  unfolding marr_init
  marr_init-Sound n s h =
      let emptied : HasObjects (g.put no_slots s) = slots.puts no_slots s Holds-no_slots h in
      search (sound_rules, marr_resize-Sound)
