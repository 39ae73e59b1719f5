-- ===== src/Interpreter/Fetch.antt =====
-- Reading the arguments of an instruction that lie in code memory.
use integer_java_virtual_mac.Base.{ℕ, ◌+◌, ◌*◌, ◌<◌, ◌≡◌, bit_or, arith}
use integer_java_virtual_mac.Base.Bits.{bit_or_fields, bit_or-zero_left, bit_or-zero_bits}
use integer_java_virtual_mac.Base.Word.{sext16}
use integer_java_virtual_mac.Machine.{Vm, ok}
use integer_java_virtual_mac.Interpreter.Args.{next_byte, get_arg_byte, get_arg_short}

-- The machine with another program counter.
abbrev pub at_pc : Vm → ℕ → Vm
at_pc s n = record s { cpu = record (s.cpu) { pc = n } }

-- Code memory holds bytes, and its size is an `int` that is not negative.
pub record HasCode (s : Vm) : Type 0 where
  pub size : s.cpu.code_mem_size < 0x8000_0000
  pub bytes : (i : ℕ) → s.cpu.code_mem i < 256

-- The number that the two bytes at `i` make, high byte first.
abbrev pub short_at : Vm → ℕ → ℕ
short_at s i = s.cpu.code_mem i * 256 + s.cpu.code_mem (i + 1)

pub next_byte-ok :
    (s : Vm)
    → HasCode s
    → s.cpu.pc < s.cpu.code_mem_size
    → next_byte s ≡ ok (s.cpu.code_mem s.cpu.pc) (at_pc s (s.cpu.pc + 1))
unfolding next_byte
next_byte-ok s h lt = ground (arith, h.size)

pub get_arg_byte-ok :
    (s : Vm)
    → HasCode s
    → s.cpu.pc < s.cpu.code_mem_size
    → get_arg_byte s ≡ ok (s.cpu.code_mem s.cpu.pc) (at_pc s (s.cpu.pc + 1))
unfolding get_arg_byte
get_arg_byte-ok s h lt = ground (arith, h.size, next_byte-ok s h lt)

pub bytes_or : (a b : ℕ) → a < 256 → b < 256 → bit_or (a * 256) b ≡ a * 256 + b
bytes_or a b ha hb = ground (
  arith,
  bit_or_fields 8 a 0 0 b (omega arith) (omega arith),
  bit_or-zero_bits 8 a (omega arith),
  bit_or-zero_left b,
)

pub get_arg_short-ok :
    (s : Vm)
    → HasCode s
    → s.cpu.pc + 1 < s.cpu.code_mem_size
    → get_arg_short s ≡ ok (sext16 (short_at s s.cpu.pc)) (at_pc s (s.cpu.pc + 2))
unfolding get_arg_short
get_arg_short-ok s h lt = ground (
  arith,
  h.size,
  next_byte-ok s h (omega arith),
  next_byte-ok (at_pc s (s.cpu.pc + 1)) (record { size = h.size; bytes = h.bytes }) lt,
  bytes_or (s.cpu.code_mem s.cpu.pc) (s.cpu.code_mem (s.cpu.pc + 1)) (h.bytes _) (h.bytes _),
)
