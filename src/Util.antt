-- ===== src/Util.antt =====
-- src/util.c: reads of code memory, the byte order of a word, and `power`.
pub mod Power
pub mod Bytes
use integer_java_virtual_mac.Base.{
  ℕ, zero, suc, ◌+◌, ◌*◌, ◌/◌, bit_and, bit_or, ◌==◌, ltb, if◌then◌else◌,
}
use integer_java_virtual_mac.Base.Word.{wrap, sext16}
use integer_java_virtual_mac.Machine.{fault, ok, M, pure, ◌>>=◌}

-- There is no test that the index lies in the code.
unfoldable pub get_code_byte : ℕ → M ℕ
get_code_byte i s = if ltb i s.cpu.code_mem_size then ok (s.cpu.code_mem i) s else fault

unfoldable pub get_code_short : ℕ → M ℕ
get_code_short i = do
  b1 ← get_code_byte i
  b2 ← get_code_byte (i + 1)
  pure (sext16 (bit_or (b1 * 256) b2))

unfoldable pub swap_uint32 : ℕ → ℕ
swap_uint32 num =
    bit_or
      (bit_or (bit_or (bit_and (num / 0x1000000) 0xff) (bit_and (wrap (num * 256)) 0xff0000))
        (bit_and (num / 256) 0xff00))
      (bit_and (wrap (num * 0x1000000)) 0xff000000)

-- The loop of `power`: it multiplies by the exponent.
unfoldable pub power_loop : ℕ → ℕ → ℕ → ℕ
power_loop zero base exponent = base
power_loop (suc n) base exponent = power_loop n (wrap (base * exponent)) exponent

unfoldable pub power : ℕ → ℕ → ℕ
power base exponent = if exponent == 0 then 1 else power_loop exponent base exponent
