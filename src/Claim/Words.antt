-- ===== src/Claim/Words.antt =====
-- The operations of src/marr.c keep the machine's values words.
use integer_java_virtual_mac.Base.{
  ℕ, zero, suc, ◌≡◌, some, ltb, ◌==◌, if◌then◌else◌, length, inl, inr, Bool-cases, arith,
}
use integer_java_virtual_mac.Machine.{Vm, MArr, Run, Block}
use integer_java_virtual_mac.Machine.Words.{
  AllValues, HoldsWords, HasWords, Typed, Any, Typed-if, typed, typed_exit, typed_fault, typed_fuel,
  typed_rules, alloc-Typed,
}
use integer_java_virtual_mac.Marr.{
  Global, arr_mem, net_conn, no_slots, fill, clear, marr_check_marked, marr_remove_element,
}
use integer_java_virtual_mac.Marr.Sound.{Sound, sound, sound_exit, sound_fault}
use integer_java_virtual_mac.Collector.{arr_gc}
use integer_java_virtual_mac.Collector.Sound.{IsCollectable, arr_gc-Keeps}
use integer_java_virtual_mac.Claim.{
  count_creation, get_free_index, marr_add_element, grow, resize_retry, marr_resize, marr_init,
}

AllValues-no_slots : {A : Type 0} (P : A → Type 0) → AllValues P no_slots
AllValues-no_slots P j b e = cc

module _ {A : Type 0} {P : A → Type 0} where
  AllValues-fill : (m : MArr A) (i : ℕ) (a : A) → P a → AllValues P m → AllValues P (fill m i a)
  AllValues-fill m i a p h j b e = elim (Bool-cases (j == i)) [
    | inl same ↦ let e' : b ≡ a = ground arith in rw e' p
    | inr other ↦ h j b (ground arith)
  ]

  AllValues-clear : (m : MArr A) (i : ℕ) → AllValues P m → AllValues P (clear m i)
  AllValues-clear m i h j b e = elim (Bool-cases (j == i)) [
    | inl same ↦ ground arith
    | inr other ↦ h j b (ground arith)
  ]

  AllValues-grow : (m : MArr A) (n : ℕ) → AllValues P m → AllValues P (grow m n)
  AllValues-grow m n h j b e = elim (Bool-cases (ltb j m.size)) [
    | inl old ↦ h j b (ground arith)
    | inr new ↦ ground arith
  ]

  pub AllValues-write :
      (m : MArr A) (i : ℕ) (a : A)
      → P a
      → AllValues P m
      → AllValues P (record m { values = λ j. if j == i then some a else m.values j })
  AllValues-write m i a p h j b e = elim (Bool-cases (j == i)) [
    | inl same ↦ let e' : b ≡ a = ground arith in rw e' p
    | inr other ↦ h j b (ground arith)
  ]

-- The machine with other arrays that hold words.
pub HasWords-arrays :
    (m : MArr Block) (s : Vm) → AllValues HoldsWords m → HasWords s → HasWords (arr_mem.put m s)
HasWords-arrays m s k h = record {
  pc_word = h.pc_word;
  sp_word = h.sp_word;
  fp_word = h.fp_word;
  lv_word = h.lv_word;
  nv_word = h.nv_word;
  stack_words = h.stack_words;
  const_words = h.const_words;
  code_bytes = h.code_bytes;
  arrays_words = k;
  input_words = h.input_words;
}

abbrev HasWords-IsCollectable : IsCollectable HasWords
HasWords-IsCollectable = record {
  asks = λ s h. h;
  clears =
      λ i s h. HasWords-arrays (clear s.arr_mem i) s (AllValues-clear s.arr_mem i h.arrays_words) h;
  marks = λ enough s h. h;
}

Sound-Typed : {A : Type 0} {r : Run A} → Sound HasWords r → Typed Any r
Sound-Typed (sound h) = typed tt h
Sound-Typed (sound_exit h) = typed_exit
Sound-Typed sound_fault = typed_fault

pub arr_gc-Typed : (s : Vm) → HasWords s → Typed Any (arr_gc s)
arr_gc-Typed s h = Sound-Typed (arr_gc-Keeps HasWords HasWords-IsCollectable s h)

count_creation-Typed : (s : Vm) → HasWords s → Typed Any (count_creation s)
unfolding count_creation
count_creation-Typed s h = search (typed_rules, arr_gc-Typed)

-- One of the two mapped arrays, with what its objects hold.
pub record IsTyped {A : Type 0} (P : A → Type 0) (g : Global A) : Type 0 where
  pub holds : (s : Vm) → HasWords s → AllValues P (g.get s)
  pub puts : (m : MArr A) (s : Vm) → AllValues P m → HasWords s → HasWords (g.put m s)

abbrev pub arr_mem-IsTyped : IsTyped HoldsWords arr_mem
arr_mem-IsTyped = record { holds = λ s h. h.arrays_words; puts = HasWords-arrays }

abbrev pub net_conn-IsTyped : IsTyped Any net_conn
net_conn-IsTyped = record { holds = λ s h i k e. tt; puts = λ m s k h. h }

module _ {A : Type 0} {P : A → Type 0} (g : Global A) (t : IsTyped P g) where
  get_free_index-Typed : (s : Vm) → HasWords s → Typed Any (get_free_index g s)
  unfolding get_free_index
  get_free_index-Typed s h = search (typed_rules, count_creation-Typed)

  filled-HasWords :
      (a : A) → P a → (i : ℕ) (s : Vm) → HasWords s → HasWords (g.put (fill (g.get s) i a) s)
  filled-HasWords a p i s h = t.puts _ s (AllValues-fill (g.get s) i a p (t.holds s h)) h

  pub marr_add_element-Typed :
      (a : A) → P a → (s : Vm) → HasWords s → Typed Any (marr_add_element g a s)
  unfolding marr_add_element
  marr_add_element-Typed a p s h =
      search (typed_rules, get_free_index-Typed, filled-HasWords a p) depth 10

  grown-HasWords : (n : ℕ) (s : Vm) → HasWords s → HasWords (g.put (grow (g.get s) n) s)
  grown-HasWords n s h = t.puts _ s (AllValues-grow (g.get s) n (t.holds s h)) h

  resize_retry-Typed : (fuel n : ℕ) (s : Vm) → HasWords s → Typed Any (resize_retry g fuel n s)
  unfolding resize_retry
  resize_retry-Typed zero n s h = typed_fuel
  resize_retry-Typed (suc fuel) n s h =
      search (typed_rules, alloc-Typed, arr_gc-Typed, grown-HasWords, resize_retry-Typed fuel) depth
        20

  pub marr_resize-Typed : (n : ℕ) (s : Vm) → HasWords s → Typed Any (marr_resize g n s)
  unfolding marr_resize
  marr_resize-Typed n s h = resize_retry-Typed (suc (length s.heap_answers)) n s h

  pub marr_init-Typed : (n : ℕ) (s : Vm) → HasWords s → Typed Any (marr_init g n s)
  unfolding marr_init
  marr_init-Typed n s h =
      let emptied : HasWords (g.put no_slots s) = t.puts no_slots s (AllValues-no_slots P) h in
      search (typed_rules, marr_resize-Typed)

  pub marr_check_marked-Typed : (i : ℕ) (s : Vm) → HasWords s → Typed Any (marr_check_marked g i s)
  unfolding marr_check_marked
  marr_check_marked-Typed i s h = search typed_rules

  pub marr_remove_element-Typed :
      (i : ℕ) (s : Vm) → HasWords s → Typed Any (marr_remove_element g i s)
  unfolding marr_remove_element
  marr_remove_element-Typed i s h =
      Typed-if _ typed_exit (typed tt (t.puts _ s (AllValues-clear (g.get s) i (t.holds s h)) h))
