-- ===== src/Util/Bytes.antt =====
-- `swap_uint32` of src/util.c.
use mathlib.Core.Path.{ap₂}
use integer_java_virtual_mac.Base.{ℕ, ◌+◌, ◌*◌, ◌/◌, ◌^◌, ◌<◌, ◌≡◌, ap, ◌∙◌, arith, bit_and, bit_or}
use integer_java_virtual_mac.Base.Bits.{
  bit_and_fields, bit_or_fields, bit_and_ones, bit_and-zero_bits, bit_or-zero_left,
  bit_or-zero_bits,
}
use integer_java_virtual_mac.Base.Word.{wrap}
use integer_java_virtual_mac.Util.{swap_uint32}

-- The word with four given bytes, the lowest first.
abbrev pub word_of : ℕ → ℕ → ℕ → ℕ → ℕ
word_of b0 b1 b2 b3 = b0 + b1 * 0x100 + b2 * 0x10000 + b3 * 0x1000000

mask_byte :
    (k p b r : ℕ)
    → p < 2 ^ 24
    → b < 2 ^ 8
    → r < 2 ^ k
    → 0 < 2 ^ k
    → bit_and ((p * 2 ^ 8 + b) * 2 ^ k + r) (255 * 2 ^ k + 0) ≡ b * 2 ^ k
mask_byte k p b r hp hb hr pos =
    let low : bit_and (p * 2 ^ 8 + b) (0 * 2 ^ 8 + 255) ≡ b = omega (
      arith,
      bit_and_fields 8 p b 0 255 hb (omega arith),
      bit_and-zero_bits 24 p hp,
      bit_and_ones 8 b hb,
    ) in
    bit_and_fields k (p * 2 ^ 8 + b) r 255 0 hr pos
    ∙ ap₂ (λ (x y : ℕ). x * 2 ^ k + y) low (bit_and-zero_bits k r hr)
    ∙ omega arith

or_low : (k r m : ℕ) → r < 2 ^ k → 0 < 2 ^ k → bit_or r (m * 2 ^ k) ≡ m * 2 ^ k + r
or_low k r m hr pos =
    ap₂ bit_or (omega arith) (omega arith)
    ∙ bit_or_fields k 0 r m 0 hr pos
    ∙ ap₂ (λ (x y : ℕ). x * 2 ^ k + y) (bit_or-zero_left m) (bit_or-zero_bits k r hr)

-- Four bytes in their places, joined.
bytes_or4 :
    (b0 b1 b2 b3 : ℕ)
    → b0 < 256
    → b1 < 256
    → b2 < 256
    → bit_or (bit_or (bit_or b0 (b2 * 0x10000)) (b1 * 0x100)) (b3 * 0x1000000) ≡ word_of b0 b1 b2 b3
bytes_or4 b0 b1 b2 b3 h0 h1 h2 =
    let join : bit_or (b2 * 2 ^ 8) b1 ≡ b2 * 2 ^ 8 + b1 =
      ap₂ bit_or (omega arith) (omega arith)
      ∙ bit_or_fields 8 b2 0 0 b1 (omega arith) h1
      ∙ ap₂ (λ (x y : ℕ). x * 2 ^ 8 + y) (bit_or-zero_bits 8 b2 h2) (bit_or-zero_left b1) in
    let low : bit_or b0 (b2 * 0x10000) ≡ b2 * 2 ^ 8 * 2 ^ 8 + b0 =
      or_low 16 b0 b2 (omega arith) (omega arith) ∙ omega arith in
    let middle : bit_or (b2 * 2 ^ 8 * 2 ^ 8 + b0) (b1 * 0x100) ≡ (b2 * 2 ^ 8 + b1) * 2 ^ 8 + b0 =
      ap (bit_or (b2 * 2 ^ 8 * 2 ^ 8 + b0)) (omega arith)
      ∙ bit_or_fields 8 (b2 * 2 ^ 8) b0 b1 0 h0 (omega arith)
      ∙ ap₂ (λ (x y : ℕ). x * 2 ^ 8 + y) join (bit_or-zero_bits 8 b0 h0) in
    rw (low, middle)
      (or_low 24 ((b2 * 2 ^ 8 + b1) * 2 ^ 8 + b0) b3 (omega arith) (omega arith) ∙ omega arith)

-- `swap_uint32` reverses the four bytes of a word.
pub swap_uint32_lem :
    (b0 b1 b2 b3 : ℕ)
    → b0 < 256
    → b1 < 256
    → b2 < 256
    → b3 < 256
    → swap_uint32 (word_of b0 b1 b2 b3) ≡ word_of b3 b2 b1 b0
unfolding swap_uint32
swap_uint32_lem b0 b1 b2 b3 h0 h1 h2 h3 =
    let w = word_of b0 b1 b2 b3 in
    let top : bit_and (w / 0x1000000) 0xff ≡ b3 =
      ap (λ (x : ℕ). bit_and x 0xff) (omega arith) ∙ bit_and_ones 8 b3 h3 in
    let second : bit_and (wrap (w * 256)) 0xff0000 ≡ b1 * 0x10000 =
      ap (λ (x : ℕ). bit_and x 0xff0000) (omega arith)
      ∙ mask_byte 16 b2 b1 (b0 * 256) (omega arith) h1 (omega arith) (omega arith) in
    let third : bit_and (w / 256) 0xff00 ≡ b2 * 0x100 =
      ap (λ (x : ℕ). bit_and x 0xff00) (omega arith)
      ∙ mask_byte 8 b3 b2 b1 (omega arith) h2 h1 (omega arith) in
    let last : bit_and (wrap (w * 0x1000000)) 0xff000000 ≡ b0 * 0x1000000 =
      ap (λ (x : ℕ). bit_and x 0xff000000) (omega arith)
      ∙ mask_byte 24 0 b0 0 (omega arith) h0 (omega arith) (omega arith) in
    rw (top, second, third, last) (bytes_or4 b3 b2 b1 b0 h3 h2 h1)
