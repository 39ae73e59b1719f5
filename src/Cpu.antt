-- ===== src/Cpu.antt =====
-- src/cpu.c: the stack, the constants, the local variables and jumps.
pub mod Stack
pub mod Kept
pub mod Sound
pub mod Words
pub mod Locals
pub mod Jump
use integer_java_virtual_mac.Base.{
  ℕ, zero, suc, ◌+◌, ◌*◌, Bool, true, false, ◌||◌, ◌==◌, ltb, if◌then◌else◌, length,
}
use integer_java_virtual_mac.Base.Word.{wrap, sub_word, is_neg, slt, sle, sdiv4}
use integer_java_virtual_mac.Machine.{
  free_block, pop_empty, out_of_memory, no_memory, bad_constant, bad_variable, bad_jump, fault, ok,
  exit, out_of_fuel, M, pure, ◌>>=◌, ◌>>◌, stop_if, modify_cpu, alloc, read_stack, write_stack,
}
use integer_java_virtual_mac.Collector.{arr_gc}

-- `octuple_stack_size`, whose call of itself after a failed allocation takes fuel. The size that
-- a failed `realloc` leaves is the old one.
unfoldable pub octuple_retry : ℕ → M Bool
octuple_retry zero = λ _. out_of_fuel
octuple_retry (suc fuel) = do
  size ← (λ s. ok s.cpu.stack_size s)
  stop_if (ltb 4294967296 (size * 4 * 8) || size * 4 * 8 == 0) out_of_memory
  enough ← alloc
  if enough
      then (do modify_cpu (λ c. record c { stack_size = wrap (size * 8) }); pure true)
      else (do freed ← arr_gc; if freed == 0 then exit no_memory else octuple_retry fuel)

unfoldable pub octuple_stack_size : M Bool
octuple_stack_size s = octuple_retry (suc (length s.heap_answers)) s

-- `while (g_cpu->sp >= g_cpu->stack_size)`
unfoldable pub enlarge : ℕ → M Bool
enlarge zero = λ _. out_of_fuel
enlarge (suc fuel) = do
  done ← (λ s. ok (slt s.cpu.sp s.cpu.stack_size) s)
  if done
      then pure true
      else (do grown ← octuple_stack_size; if grown then enlarge fuel else pure false)

-- From a size of 1 the limit is met after ten rounds.
abbrev pub enlarge_rounds : ℕ
enlarge_rounds = 12

unfoldable pub stack_push : ℕ → M Bool
stack_push e = do
  modify_cpu (λ c. record c { sp = wrap (c.sp + 1) })
  room ← enlarge enlarge_rounds
  if room then (λ s. (write_stack s.cpu.sp e >> pure true) s) else pure false

unfoldable pub stack_pop : M ℕ
stack_pop = do
  c ← (λ s. ok s.cpu s)
  stop_if (slt c.sp c.lv || is_neg c.sp) pop_empty
  modify_cpu (λ c'. record c' { sp = sub_word c'.sp 1 })
  read_stack c.sp

-- The block of the constants has `const_mem_size` words, four times as many as there are constants.
unfoldable pub get_constant : ℕ → M ℕ
get_constant i s =
    if is_neg i || sle (sdiv4 s.cpu.const_mem_size) i
    then exit bad_constant s
    else if ltb i s.cpu.const_mem_size
    then ok (s.cpu.const_mem i) s
    else fault

unfoldable pub get_local_variable : ℕ → M ℕ
get_local_variable i s =
    if is_neg i || sle s.cpu.nv i then exit bad_variable s else read_stack (wrap (s.cpu.lv + i)) s

unfoldable pub update_local_variable : ℕ → ℕ → M (Unit {0})
update_local_variable v i s =
    if is_neg i || sle s.cpu.nv i
    then exit bad_variable s
    else write_stack (wrap (s.cpu.lv + i)) v s

unfoldable pub jump : ℕ → M (Unit {0})
jump offset s =
    if is_neg (wrap (s.cpu.pc + offset)) || sle s.cpu.code_mem_size offset
    then exit bad_jump s
    else ok tt (record s { cpu = record (s.cpu) { pc = wrap (s.cpu.pc + offset) } })

unfoldable pub cpu_destroy : M (Unit {0})
cpu_destroy = do
  c ← (λ s. ok s.cpu s)
  stack ← free_block c.stack_block
  code ← free_block c.code_block
  const ← free_block c.const_block
  modify_cpu (λ c'. record c' { stack_block = stack; code_block = code; const_block = const })
