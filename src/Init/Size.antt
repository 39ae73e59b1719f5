-- ===== src/Init/Size.antt =====
-- `init_stack` of src/init.c: the size of the first stack.
use integer_java_virtual_mac.Base.{ℕ, ◌+◌, ◌≤◌, ◌<◌, arith}
use integer_java_virtual_mac.Util.{power_loop, power}
use integer_java_virtual_mac.Init.{stack_size_for}

-- For up to 2 ^ 16 local variables of `main` the first stack has room for them and for 256 words
-- more, and its size is an `int`; the size before does not matter.
pub stack_size_for_lem :
    (vars old : ℕ)
    → vars ≤ 0x10000
    → (vars + 256 ≤ stack_size_for 7 0 vars old) × (stack_size_for 7 0 vars old < 0x8000_0000)
unfolding stack_size_for power power_loop
stack_size_for_lem vars old h = ground arith
