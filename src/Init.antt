-- ===== src/Init.antt =====
-- src/init.c: the number of local variables of `main`, the first stack and the registers.
pub mod Start
pub mod Destroy
pub mod Size
pub mod Frame
pub mod Vars
use integer_java_virtual_mac.Base.{
  ℕ, zero, suc, ◌+◌, ◌*◌, Bool, true, false, not, ◌&&◌, Option, some, List, ◌==◌, ltb, leb,
  if◌then◌else◌,
}
use integer_java_virtual_mac.Base.Word.{minus_one, wrap, sub_word, is_neg, slt}
use integer_java_virtual_mac.Machine.{
  null, live, no_memory, bad_main, ok, out_of_fuel, M, pure, ◌>>=◌, ◌>>◌, stop_if, modify,
  modify_cpu, alloc,
}
use integer_java_virtual_mac.Opcode.{
  Op, bipush, ldc_w, iload, istore, iinc, ifeq, iflt, icmpeq, goto, invokevirtual, wide, decode,
}
use integer_java_virtual_mac.Util.{get_code_byte, get_code_short, power}
use integer_java_virtual_mac.Cpu.{cpu_destroy, get_constant}
use integer_java_virtual_mac.Arrays.{arr_destroy}
use integer_java_virtual_mac.Net.{net_destroy}
use integer_java_virtual_mac.Loader.{File, load_bin}
use integer_java_virtual_mac.Interpreter.{clear_stack}

-- The variables of the loop in `get_num_local_vars_main`.
pub record Scan : Type 0 where
  pub first_method : ℕ
  pub var_num : ℕ
  pub next_wide : Bool

-- The index behind ISTORE, ILOAD and IINC, and the number of bytes that it takes.
unfoldable pub scan_index : ℕ → Bool → M (ℕ × ℕ)
scan_index i next_wide s =
    if next_wide
    then (get_code_short (i + 1) >>= λ v. pure (v, 2)) s
    else (get_code_byte (i + 1) >>= λ v. pure (v, 1)) s

unfoldable pub count_variable : ℕ → ℕ → ℕ
count_variable var_num index = if slt var_num (wrap (index + 1)) then wrap (index + 1) else var_num

unfoldable pub scan_variable : ℕ → Scan → M (ℕ × Scan)
scan_variable i t = do
  (index, n) ← scan_index i t.next_wide
  pure (n, record t { var_num = count_variable t.var_num index; next_wide = false })

unfoldable pub lower_method : ℕ → ℕ → ℕ → ℕ
lower_method addr first code_size =
    if not (is_neg addr) && not (addr == 0) && ltb addr first && slt addr code_size
    then addr
    else first

-- One round: the number of argument bytes to pass over, and the new variables.
unfoldable pub scan_op : Option Op → ℕ → Scan → M (ℕ × Scan)
scan_op (some wide) i t = pure (0, record t { next_wide = true })
scan_op (some invokevirtual) i t = do
  c ← get_code_short (i + 1)
  addr ← get_constant c
  λ s. ok (2, record t { first_method = lower_method addr t.first_method s.cpu.code_mem_size }) s
scan_op (some istore) i t = scan_variable i t
scan_op (some iload) i t = scan_variable i t
scan_op (some iinc) i t = do (n, t') ← scan_variable i t; pure (n + 1, t')
scan_op (some bipush) i t = pure (1, t)
scan_op (some goto) i t = pure (2, t)
scan_op (some ifeq) i t = pure (2, t)
scan_op (some iflt) i t = pure (2, t)
scan_op (some icmpeq) i t = pure (2, t)
scan_op (some ldc_w) i t = pure (2, t)
scan_op _ i t = pure (0, t)

-- The loop, which ends at the end of the code or before the first other method.
unfoldable pub scan_code : ℕ → ℕ → Scan → M ℕ
scan_code zero i t = λ _. out_of_fuel
scan_code (suc fuel) i t = do
  more ← (λ s. ok (not (is_neg s.cpu.code_mem_size) && ltb i s.cpu.code_mem_size) s)
  if not more then pure t.var_num else (do
    b ← get_code_byte i
    if not (i == minus_one) && ltb t.first_method (wrap (i + 2))
        then pure t.var_num
        else (do (n, t') ← scan_op (decode b) i t; scan_code fuel (i + n + 1) t'))

unfoldable pub get_num_local_vars_main : M ℕ
get_num_local_vars_main s =
    scan_code (suc s.cpu.code_mem_size) 0
      (record { first_method = minus_one; var_num = 0; next_wide = false }) s

-- `STACK_MIN_SIZE` of include/config.h
abbrev pub stack_min_size : ℕ
stack_min_size = 4096

-- The search for the smallest suitable size, from exponent `i` on, with the rounds that are left;
-- without one the size stays.
unfoldable pub stack_size_for : ℕ → ℕ → ℕ → ℕ → ℕ
stack_size_for zero i vars old = old
stack_size_for (suc n) i vars old =
    let rest = stack_size_for n (i + 1) vars old in
    if leb (vars * 4 + 1024) (stack_min_size * 4 * power 8 i)
    then wrap (stack_min_size * power 8 i)
    else rest

unfoldable pub init_stack : M (Unit {0})
init_stack = do
  vars ← get_num_local_vars_main
  stop_if (is_neg vars) bad_main
  modify_cpu (λ c. record c { stack_size = stack_size_for 7 0 vars c.stack_size })
  enough ← alloc
  modify_cpu (λ c. record c { stack_block = if enough then live else null })
  stop_if (not enough) no_memory
  modify_cpu (λ c. record c { sp = sub_word vars 1; lv = 0; nv = vars; fp = vars })
  clear_stack 0 vars

unfoldable pub init_registers : M (Unit {0})
init_registers = modify_cpu (λ c. record c { pc = 0 })

unfoldable pub init_cpu_flags : M (Unit {0})
init_cpu_flags = modify_cpu (λ c. record c { error_flag = false; halt_flag = false })

unfoldable pub set_output : List ℕ → M (Unit {0})
set_output f = modify (λ s. record s { out_file = f })

unfoldable pub set_input : List ℕ → M (Unit {0})
set_input f = modify (λ s. record s { in_file = f })

unfoldable pub init_interpreter : M (Unit {0})
init_interpreter = modify (λ s. record s { next_op_wide = false })

-- `destroy_ijvm` of src/terminate.c.
unfoldable pub destroy_ijvm : M (Unit {0})
destroy_ijvm = do net_destroy; arr_destroy; cpu_destroy

-- `init_ijvm`, with the binary and the contents of `stdout` and `stdin`. The result is -1 or 0.
unfoldable pub init_ijvm : Option File → List ℕ → List ℕ → M ℕ
init_ijvm binary stdout stdin = do
  loaded ← load_bin binary
  if not loaded then (do destroy_ijvm; pure minus_one) else (do
    init_registers
    init_stack
    init_cpu_flags
    set_output stdout
    set_input stdin
    init_interpreter
    pure 0)
