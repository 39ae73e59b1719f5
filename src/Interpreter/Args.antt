-- ===== src/Interpreter/Args.antt =====
-- The arguments of an instruction, src/interpreter.c.
use integer_java_virtual_mac.Base.{ℕ, ◌+◌, ◌*◌, bit_or, ltb, if◌then◌else◌}
use integer_java_virtual_mac.Base.Word.{wrap, slt, sext16}
use integer_java_virtual_mac.Machine.{beyond_code, fault, ok, M, pure, ◌>>=◌, ◌>>◌, stop_if}

-- `(g_cpu->code_mem)[g_cpu->pc++]`
unfoldable pub next_byte : M ℕ
next_byte s =
    if ltb s.cpu.pc s.cpu.code_mem_size
    then ok (s.cpu.code_mem s.cpu.pc)
        (record s { cpu = record (s.cpu) { pc = wrap (s.cpu.pc + 1) } })
    else fault

unfoldable pub get_arg_byte : M ℕ
get_arg_byte = do
  (λ s. stop_if (slt s.cpu.code_mem_size (wrap (s.cpu.pc + 1))) beyond_code s)
  next_byte

-- The two bytes, high byte first, as a signed number.
unfoldable pub get_arg_short : M ℕ
get_arg_short = do
  (λ s. stop_if (slt s.cpu.code_mem_size (wrap (s.cpu.pc + 2))) beyond_code s)
  b1 ← next_byte
  b2 ← next_byte
  pure (sext16 (bit_or (b1 * 256) b2))
