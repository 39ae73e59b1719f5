-- ===== src/Refs/Digits.antt =====
-- References by arithmetic: the top byte, twenty bits of index and the lowest digit.
use integer_java_virtual_mac.Base.{
  ℕ, ◌+◌, ◌*◌, ◌/◌, ◌%◌, ◌^◌, ◌<◌, bit_and, ◌≡◌, true, arith, ap, ◌∙◌,
}
use integer_java_virtual_mac.Base.Word.{word_mod}
use integer_java_virtual_mac.Base.Bits.{
  bit_and_fields, bit_or_fields, bit_and_ones, ones_bit_and, bit_and-zero_bits, bit_and-zero_left,
  bit_or-zero_left, bit_or-zero_bits, bit_xor-zero_bits, bit_xor_self, bit_and-lt,
}
use integer_java_virtual_mac.Refs.{k_ref_to_index, ref_to_index, index_to_ref, is_ref}

-- The mask of the format test keeps the top byte and the lowest digit.
format_mask :
    (c q d : ℕ)
    → c < 256
    → q < 0x100000
    → d < 16
    → bit_and (c * 2 ^ 24 + (q * 2 ^ 4 + d)) 0xff00_000f ≡ c * 2 ^ 24 + d
format_mask c q d hc hq hd = omega (
  arith,
  bit_and_fields 24 c (q * 2 ^ 4 + d) 255 15 (omega arith) (omega arith),
  bit_and_ones 8 c (omega arith),
  bit_and_fields 4 q d 0 15 (omega arith) (omega arith),
  bit_and-zero_bits 20 q (omega arith),
  bit_and_ones 4 d (omega arith),
)

-- A tag with top byte `c` and lowest digit `d`.
abbrev pub tag_of : ℕ → ℕ → ℕ
tag_of c d = c * 2 ^ 24 + d

module _ (c d : ℕ) (hc : c < 256) (hd : d < 16) where
  pub index_to_ref_lem :
      (i : ℕ) → i < 0x100000 → index_to_ref (tag_of c d) i ≡ c * 2 ^ 24 + (i * 2 ^ 4 + d)
  unfolding index_to_ref
  index_to_ref_lem i hi = ground (
    arith,
    bit_or_fields 24 c d 0 (i * 2 ^ 4) (omega arith) (omega arith),
    bit_or-zero_bits 8 c (omega arith),
    bit_or_fields 4 0 d i 0 (omega arith) (omega arith),
    bit_or-zero_left i,
    bit_or-zero_bits 4 d (omega arith),
  )

  masked_lem : (r : ℕ) → r < word_mod → bit_and r 0xff00_000f ≡ r / 2 ^ 24 * 2 ^ 24 + r % 16
  masked_lem r hr =
      let e : r ≡ r / 2 ^ 24 * 2 ^ 24 + (r / 16 % 0x100000 * 2 ^ 4 + r % 16) = omega arith in
      ap (λ x. bit_and x 0xff00_000f) e
      ∙ format_mask (r / 2 ^ 24) (r / 16 % 0x100000) (r % 16) (omega arith) (omega arith)
          (omega arith)

  pub is_ref→digits :
      (r : ℕ) → r < word_mod → is_ref (tag_of c d) r ≡ true → (r / 2 ^ 24 ≡ c) × (r % 16 ≡ d)
  unfolding is_ref
  is_ref→digits r hr h =
      let e : bit_and r 0xff00_000f ≡ tag_of c d =
        bit_xor-zero_bits 32 _ _ (bit_and-lt 32 r 0xff00_000f (omega arith)) (ground arith) in
      omega (arith, masked_lem r hr, e)

  pub digits→is_ref :
      (r : ℕ) → r < word_mod → r / 2 ^ 24 ≡ c → r % 16 ≡ d → is_ref (tag_of c d) r ≡ true
  unfolding is_ref
  digits→is_ref r hr top low =
      let e : bit_and r 0xff00_000f ≡ tag_of c d = omega (arith, masked_lem r hr) in
      rw e (ground (arith, bit_xor_self 32 (tag_of c d) (omega arith)))

pub ref_to_index_lem : (r : ℕ) → r < word_mod → ref_to_index r ≡ r / 16 % 0x100000
unfolding ref_to_index
ref_to_index_lem r hr =
    let q : ℕ = r / 16 % 0x100000 in
    let e : r ≡ r / 2 ^ 24 * 2 ^ 24 + (q * 2 ^ 4 + r % 16) = omega arith in
    let m : bit_and k_ref_to_index (r / 2 ^ 24 * 2 ^ 24 + (q * 2 ^ 4 + r % 16)) ≡ q * 2 ^ 4 =
      omega (
        arith,
        bit_and_fields 24 0 0xff_fff0 (r / 2 ^ 24) (q * 2 ^ 4 + r % 16) (omega arith) (omega arith),
        bit_and-zero_left (r / 2 ^ 24),
        bit_and_fields 4 0xf_ffff 0 q (r % 16) (omega arith) (omega arith),
        bit_and-zero_left (r % 16),
        ones_bit_and 20 q (omega arith),
      ) in
    omega (arith, ap (λ x. bit_and k_ref_to_index x) e ∙ m)

module _ (c d : ℕ) (hc : c < 256) (hd : d < 16) where
  -- For every tag of a top byte and a lowest digit, as arrays and connections have one: the
  -- reference to an index below 2 ^ 20 is a word in the format of a reference, and gives the index
  -- back.
  pub ref_to_index-index_to_ref :
      (i : ℕ)
      → i < 0x100000
      → (ref_to_index (index_to_ref (tag_of c d) i) ≡ i)
        × (is_ref (tag_of c d) (index_to_ref (tag_of c d) i) ≡ true)
        × (index_to_ref (tag_of c d) i < word_mod)
  ref_to_index-index_to_ref i hi =
      let e = index_to_ref_lem c d hc hd i hi in
      let r = index_to_ref (tag_of c d) i in
      (
        omega (arith, e, ref_to_index_lem r (omega arith)),
        digits→is_ref c d hc hd r (omega arith) (omega arith) (omega arith),
        omega arith,
      )

  -- Every word in the format of a reference is the reference to its index, which is below 2 ^ 20.
  pub index_to_ref-ref_to_index :
      (r : ℕ)
      → r < word_mod
      → is_ref (tag_of c d) r ≡ true
      → (ref_to_index r < 0x100000) × (index_to_ref (tag_of c d) (ref_to_index r) ≡ r)
  index_to_ref-ref_to_index r hr h =
      let i = ref_to_index r in
      let (top, low) = is_ref→digits c d hc hd r hr h in
      let e = ref_to_index_lem r hr in
      (omega arith, omega (arith, index_to_ref_lem c d hc hd i (omega arith)))
