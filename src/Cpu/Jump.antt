-- ===== src/Cpu/Jump.antt =====
-- `jump` of src/cpu.c, and the test for the end in src/interpreter.c.
use integer_java_virtual_mac.Base.{ℕ, ◌+◌, ◌-◌, ◌≤◌, ◌<◌, ◌≡◌, true, leb, ltb, if◌then◌else◌, arith}
use integer_java_virtual_mac.Machine.{Vm, bad_jump, ok, exit}
use integer_java_virtual_mac.Cpu.{jump}
use integer_java_virtual_mac.Step.{finished}

-- The machine at another instruction.
abbrev pub jumped : Vm → ℕ → Vm
jumped s n = record s { cpu = record (s.cpu) { pc = n } }

-- A jump of `n` forward, below 2 ^ 15, from inside a code of fewer than 2 ^ 30 bytes, is made if
-- `n` is below the size of the code, and gives up else: it is the offset that is compared, not the
-- target. If the target lies behind the code the machine has then finished.
pub jump_forward :
    (s : Vm) (n : ℕ)
    → s.cpu.code_mem_size < 0x4000_0000
    → s.cpu.pc < s.cpu.code_mem_size
    → n < 0x8000
    → (jump n s
        ≡ (if ltb n s.cpu.code_mem_size then ok tt (jumped s (s.cpu.pc + n)) else exit bad_jump s))
      × (s.cpu.code_mem_size ≤ s.cpu.pc + n → finished (jumped s (s.cpu.pc + n)) ≡ true)
unfolding jump finished
jump_forward s n size inside small = (ground arith, λ h. ground arith)

-- A jump of `n` back, up to 2 ^ 15, from inside a code of fewer than 2 ^ 31 bytes, is made if the
-- target is not negative, and gives up else.
pub jump_back :
    (s : Vm) (n : ℕ)
    → s.cpu.code_mem_size < 0x8000_0000
    → s.cpu.pc < s.cpu.code_mem_size
    → 0 < n
    → n ≤ 0x8000
    → jump (0x1_0000_0000 - n) s
      ≡ (if leb n s.cpu.pc then ok tt (jumped s (s.cpu.pc - n)) else exit bad_jump s)
unfolding jump
jump_back s n size inside pos small = ground arith
