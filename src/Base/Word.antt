-- ===== src/Base/Word.antt =====
-- Machine integers of the program (include/types.h). A `word_t`, an `int` and a `uint32_t` are all
-- a pattern of 32 bits, a number below `word_mod`; the casts between them keep the pattern. The
-- sign is read off the top bit. Signed arithmetic wraps.
use Prim.Native.Nat.{ℕ, ◌+◌, ◌-◌, ◌/◌, ◌%◌}
use mathlib.Core.Bool.{Bool}
use integer_java_virtual_mac.Base.Tests.{ltb, leb, if◌then◌else◌}

-- 2 ^ 32, and the sign bit 2 ^ 31.
abbrev pub word_mod : ℕ
word_mod = 0x1_0000_0000

abbrev pub sign_bit : ℕ
sign_bit = 0x8000_0000

-- The patterns of -1 and of `SIZE_MAX_UINT32_T`.
abbrev pub minus_one : ℕ
minus_one = 0xffff_ffff

abbrev pub wrap : ℕ → ℕ
wrap x = x % word_mod

abbrev pub sub_word : ℕ → ℕ → ℕ
sub_word a b = (a + word_mod - b) % word_mod

-- `x < 0`, `a < b` and `a <= b` for `int`.
abbrev pub is_neg : ℕ → Bool
is_neg x = leb sign_bit x

abbrev pub slt : ℕ → ℕ → Bool
slt a b = ltb ((a + sign_bit) % word_mod) ((b + sign_bit) % word_mod)

abbrev pub sle : ℕ → ℕ → Bool
sle a b = leb ((a + sign_bit) % word_mod) ((b + sign_bit) % word_mod)

-- Sign extension of an `int8_t` and an `int16_t`, given by the low bits of a pattern.
abbrev pub sext8 : ℕ → ℕ
sext8 x = if ltb (x % 0x100) 0x80 then x % 0x100 else x % 0x100 + 0xffff_ff00

abbrev pub sext16 : ℕ → ℕ
sext16 x = if ltb (x % 0x10000) 0x8000 then x % 0x10000 else x % 0x10000 + 0xffff_0000

-- `x / 4` for `int`, which rounds towards zero.
abbrev pub sdiv4 : ℕ → ℕ
sdiv4 x = if is_neg x then sub_word 0 ((word_mod - x) / 4) else x / 4
