-- ===== src/Dump.antt =====
-- What a build with DEBUG writes about the machine: `print_cpu_...` of src/util.c, `arr_print` of
-- src/array.c, `net_print` of src/net.c and the end of `step` in src/interpreter.c. An output is
-- the list of its pieces.
pub mod Trace
pub mod Numbers
pub mod Line
use Prim.Native.String.{String}
use integer_java_virtual_mac.Base.{
  ℕ, zero, suc, ◌+◌, ◌-◌, ◌/◌, Bool, true, List, [], ◌∷◌, ◌++◌, ltb, if◌then◌else◌,
}
use integer_java_virtual_mac.Base.Word.{wrap, is_neg}
use integer_java_virtual_mac.Refs.{arr_tag, net_tag, index_to_ref}
use integer_java_virtual_mac.Machine.{Vm, Cpu, ok, fault, M, pure, ◌>>=◌, ◌>>◌, read_stack}
use integer_java_virtual_mac.Marr.{Global, arr_mem, net_conn, marr_check_marked}

-- A piece of an output: a text, or a value in the format `%i`, `%-4i` or `0x%X`; a text as `%-14s`.
pub data Piece : Type 0 where
  text : String → Piece
  int padded hex : ℕ → Piece
  column : String → Piece

abbrev pub Output : Type 0
Output = List Piece

unfoldable pub print_cpu_mem_size : Bool → Cpu → Output
print_cpu_mem_size compact c =
    if compact
    then text "Mem Size ["
      ∷ text " DM:"
      ∷ int c.const_mem_size
      ∷ text " CM:"
      ∷ int c.code_mem_size
      ∷ text " ST:"
      ∷ int c.stack_size
      ∷ text " V:"
      ∷ int c.nv
      ∷ text " ]"
      ∷ []
    else text "Mem Size\n"
      ∷ text "\tConstant Pool Size: "
      ∷ int c.const_mem_size
      ∷ text "\n\tText Size: "
      ∷ int c.code_mem_size
      ∷ text "\n\tStack Size: "
      ∷ int c.stack_size
      ∷ text "\n\tVariable Memory Size: "
      ∷ int c.nv
      ∷ text "\n"
      ∷ []

unfoldable pub print_cpu_registers : Bool → Cpu → Output
print_cpu_registers compact c =
    if compact
    then text "PC:"
      ∷ padded c.pc
      ∷ text "  SP:"
      ∷ padded c.sp
      ∷ text "  FP:"
      ∷ padded c.fp
      ∷ text "  LV:"
      ∷ padded c.lv
      ∷ text "  NV:"
      ∷ padded c.nv
      ∷ []
    else text "Regs\n"
      ∷ text "\tPC: "
      ∷ int c.pc
      ∷ text "\n\tSP: "
      ∷ int c.sp
      ∷ text "\n\tFP: "
      ∷ int c.fp
      ∷ text "\n\tLV: "
      ∷ int c.lv
      ∷ text "\n\tNV: "
      ∷ int c.nv
      ∷ text "\n"
      ∷ []

-- An element of a list: behind a blank, or on a line of its own.
abbrev pub element : Bool → Piece → Output
element compact p = if compact then text " " ∷ p ∷ [] else text "\t" ∷ p ∷ text "\n" ∷ []

abbrev pub heading : Bool → String → String → Output
heading compact short long = text (if compact then short else long) ∷ []

abbrev pub closing : Bool → Output
closing compact = if compact then text " ]" ∷ [] else []

-- The loops over a memory: `n` cells from index `i`.
unfoldable pub print_cells : (ℕ → M ℕ) → (ℕ → Output) → ℕ → ℕ → M Output
print_cells read show zero i = pure []
print_cells read show (suc n) i = do
  v ← read i
  rest ← print_cells read show n (i + 1)
  pure (show v ++ rest)

abbrev pub read_const : ℕ → M ℕ
read_const i s = if ltb i s.cpu.const_mem_size then ok (s.cpu.const_mem i) s else fault

abbrev pub read_code : ℕ → M ℕ
read_code i s = if ltb i s.cpu.code_mem_size then ok (s.cpu.code_mem i) s else fault

unfoldable pub print_cpu_const_mem : Bool → M Output
print_cpu_const_mem compact s =
    (print_cells read_const (λ v. element compact (int v)) (s.cpu.const_mem_size / 4) 0 >>= λ cells.
    pure (heading compact "C[" "Consts\n" ++ cells ++ closing compact))
      s

unfoldable pub print_cpu_code_mem : Bool → M Output
print_cpu_code_mem compact s =
    (print_cells read_code (λ v. element compact (hex v)) s.cpu.code_mem_size 0 >>= λ cells.
    pure (heading compact "OP[" "OPs\n" ++ cells ++ closing compact))
      s

-- `for (int64_t i = (uint32_t)g_cpu->fp; i <= g_cpu->sp; i++)`
abbrev pub frame_rounds : Cpu → ℕ
frame_rounds c = if is_neg c.sp then 0 else c.sp + 1 - c.fp

unfoldable pub print_cpu_stack : Bool → M Output
print_cpu_stack compact s =
    (print_cells read_stack (λ v. element compact (int v)) (frame_rounds s.cpu) s.cpu.fp
        >>= λ cells. pure (heading compact "S[" "Stack\n" ++ cells ++ closing compact))
      s

-- `for (uint32_t i = lv; i < (uint32_t)(lv + nv); i++)`
abbrev pub variable_rounds : Cpu → ℕ
variable_rounds c = wrap (c.lv + c.nv) - c.lv

unfoldable pub print_cpu_local_vars : Bool → M Output
print_cpu_local_vars compact s =
    (print_cells read_stack (λ v. element compact (int v)) (variable_rounds s.cpu) s.cpu.lv
        >>= λ cells. pure (heading compact "LV[" "LV\n" ++ cells ++ closing compact))
      s

-- The references to the slots in use of a mapped array.
unfoldable pub print_refs : {A : Type 0} → Global A → ℕ → Bool → ℕ → ℕ → M Output
print_refs g tag compact zero i = pure []
print_refs g tag compact (suc n) i = do
  used ← marr_check_marked g i
  rest ← print_refs g tag compact n (i + 1)
  pure ((if used then element compact (hex (index_to_ref tag i)) else []) ++ rest)

unfoldable pub arr_print : Bool → M Output
arr_print compact s =
    (print_refs arr_mem arr_tag compact s.arr_mem.size 0 >>= λ refs.
    pure (heading compact "AR[" "AR\n" ++ refs ++ closing compact))
      s

unfoldable pub net_print : Bool → M Output
net_print compact s =
    (print_refs net_conn net_tag compact s.net_conn.size 0 >>= λ refs.
    pure (heading compact "NR[" "NR\n" ++ refs ++ closing compact))
      s

unfoldable pub print_cpu_state : Bool → M Output
print_cpu_state compact = do
  c ← (λ s. ok s.cpu s)
  consts ← print_cpu_const_mem compact
  code ← print_cpu_code_mem compact
  stack ← print_cpu_stack compact
  vars ← print_cpu_local_vars compact
  pure (
      text "[CPU DUMP]\n" ∷ print_cpu_mem_size compact c
      ++ print_cpu_registers compact c
      ++ consts
      ++ code
      ++ stack
      ++ vars)

-- The line that `step` writes behind an instruction, of which it has kept the program counter and
-- the name.
unfoldable pub print_trace : ℕ → String → M Output
print_trace old_pc op = do
  c ← (λ s. ok s.cpu s)
  stack ← print_cpu_stack true
  vars ← print_cpu_local_vars true
  arrays ← arr_print true
  conns ← net_print true
  pure (
      (text "OPC: " ∷ padded old_pc ∷ text " OP: " ∷ column op ∷ [])
      ++ print_cpu_registers true c
      ++ text "  " ∷ stack
      ++ text "    " ∷ vars
      ++ text "    " ∷ arrays
      ++ text "    " ∷ conns
      ++ text "\n" ∷ [])
