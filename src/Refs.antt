-- ===== src/Refs.antt =====
-- References, src/array.c and src/net.c: the index of an array or of a connection as a word with a
-- fixed top byte and a fixed lowest digit. The two files have the same functions, each with its own
-- constant.
pub mod Digits
use integer_java_virtual_mac.Base.{ℕ, ◌*◌, ◌/◌, bit_and, bit_or, bit_xor, Bool, ◌==◌}
use integer_java_virtual_mac.Base.Word.{wrap}

-- `k_index_to_ref` of each file, and `k_ref_to_index` of both.
abbrev pub arr_tag : ℕ
arr_tag = 0xaa00_000a

abbrev pub net_tag : ℕ
net_tag = 0xcc00_000c

abbrev pub k_ref_to_index : ℕ
k_ref_to_index = 0x00ff_fff0

unfoldable pub ref_to_index : ℕ → ℕ
ref_to_index r = bit_and k_ref_to_index r / 16

unfoldable pub index_to_ref : ℕ → ℕ → ℕ
index_to_ref tag i = bit_or tag (wrap (i * 16))

-- `((r & 0xFF00000F) ^ k_index_to_ref) == 0`, the test for the format of a reference.
unfoldable pub is_ref : ℕ → ℕ → Bool
is_ref tag r = bit_xor (bit_and r 0xff00_000f) tag == 0
