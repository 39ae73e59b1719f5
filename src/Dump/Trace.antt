-- ===== src/Dump/Trace.antt =====
-- What a build with DEBUG writes about a machine whose frame lies in its stack.
use Prim.Native.String.{String}
use integer_java_virtual_mac.Base.{
  ℕ, zero, suc, ◌+◌, ◌/◌, ◌≤◌, ◌<◌, ◌≡◌, refl, Bool, true, [], ◌∷◌, ◌++◌, ◌⊎◌, lt→ltb, lt→leb,
  if◌then◌else◌, arith,
}
use integer_java_virtual_mac.Base.Word.{is_neg}
use integer_java_virtual_mac.Refs.{arr_tag, net_tag, index_to_ref}
use integer_java_virtual_mac.Machine.{Vm, MArr, ok, M, read_stack}
use integer_java_virtual_mac.Marr.{Global, arr_mem, net_conn, marr_check_marked}
use integer_java_virtual_mac.Dump.{
  Output, text, int, padded, hex, column, element, heading, closing, print_cells, read_const,
  read_code, print_cpu_mem_size, print_cpu_registers, print_cpu_const_mem, print_cpu_code_mem,
  frame_rounds, print_cpu_stack, variable_rounds, print_cpu_local_vars, print_refs, arr_print,
  net_print, print_cpu_state, print_trace,
}

-- The `n` cells of a memory from index `i` on, as they are shown.
abbrev pub cells : (ℕ → ℕ) → (ℕ → Output) → ℕ → ℕ → Output
cells mem show zero i = []
cells mem show (suc n) i = show (mem i) ++ cells mem show n (i + 1)

-- The references to those of the `n` slots from `i` on that are in use.
abbrev pub refs : {A : Type 0} → MArr A → ℕ → Bool → ℕ → ℕ → Output
refs m tag compact zero i = []
refs m tag compact (suc n) i =
    (if m.map i then element compact (hex (index_to_ref tag i)) else [])
    ++ refs m tag compact n (i + 1)

print_cells-ok :
    (read : ℕ → M ℕ) (mem : ℕ → ℕ) (show : ℕ → Output) (s : Vm) (n i : ℕ)
    → ((j : ℕ) → i ≤ j → j < i + n → read j s ≡ ok (mem j) s)
    → print_cells read show n i s ≡ ok (cells mem show n i) s
unfolding print_cells
print_cells-ok read mem show s zero i inside = refl
print_cells-ok read mem show s (suc n) i inside =
    rw
      (
        inside i (omega arith) (omega arith),
        print_cells-ok read mem show s n (i + 1) λ j low lt. inside j (omega arith) (omega arith),
      )
      refl

print_refs-ok :
    {A : Type 0} (g : Global A) (tag : ℕ) (compact : Bool) (s : Vm) (n i : ℕ)
    → i + n ≤ (g.get s).size
    → print_refs g tag compact n i s ≡ ok (refs (g.get s) tag compact n i) s
unfolding print_refs marr_check_marked
print_refs-ok g tag compact s zero i fits = refl
print_refs-ok g tag compact s (suc n) i fits =
    rw
      (lt→leb (g.get s).size i (omega arith), print_refs-ok g tag compact s n (i + 1) (omega arith))
      refl

-- The stack is empty or its top lies in it, and so do the local variables.
pub record IsFramed (s : Vm) : Type 0 where
  pub stack_int : s.cpu.stack_size < 0x8000_0000
  pub top : (is_neg s.cpu.sp ≡ true) ⊎ (s.cpu.sp < s.cpu.stack_size)
  pub variables : s.cpu.lv + s.cpu.nv ≤ s.cpu.stack_size

module _ (s : Vm) where
  -- The lists of the stack and of the variables in an output.
  abbrev pub stack_shown : Bool → Output
  stack_shown compact =
      heading compact "S[" "Stack\n"
      ++ cells s.cpu.stack (λ v. element compact (int v)) (frame_rounds s.cpu) s.cpu.fp
      ++ closing compact

  abbrev pub variables_shown : Bool → Output
  variables_shown compact =
      heading compact "LV[" "LV\n"
      ++ cells s.cpu.stack (λ v. element compact (int v)) s.cpu.nv s.cpu.lv
      ++ closing compact

module _ (s : Vm) (h : IsFramed s) where
  read_stack-ok : (j : ℕ) → j < s.cpu.stack_size → read_stack j s ≡ ok (s.cpu.stack j) s
  unfolding read_stack
  read_stack-ok j lt = rw (lt→ltb j s.cpu.stack_size lt) refl

  print_cpu_stack-ok : (compact : Bool) → print_cpu_stack compact s ≡ ok (stack_shown s compact) s
  unfolding print_cpu_stack
  print_cpu_stack-ok compact =
      let loop =
        print_cells-ok read_stack s.cpu.stack (λ v. element compact (int v)) s (frame_rounds s.cpu)
          s.cpu.fp λ j low lt. read_stack-ok j (ground (arith, h.top)) in
      rw loop refl

  print_cpu_local_vars-ok :
      (compact : Bool) → print_cpu_local_vars compact s ≡ ok (variables_shown s compact) s
  unfolding print_cpu_local_vars
  print_cpu_local_vars-ok compact =
      let count : variable_rounds s.cpu ≡ s.cpu.nv = omega (arith, h.stack_int, h.variables) in
      let loop =
        print_cells-ok read_stack s.cpu.stack (λ v. element compact (int v)) s s.cpu.nv s.cpu.lv
          λ j low lt. read_stack-ok j (omega (arith, h.variables)) in
      rw (count, loop) refl

module _ (s : Vm) (compact : Bool) where
  abbrev pub consts_shown : Output
  consts_shown =
      heading compact "C[" "Consts\n"
      ++ cells s.cpu.const_mem (λ v. element compact (int v)) (s.cpu.const_mem_size / 4) 0
      ++ closing compact

  abbrev pub code_shown : Output
  code_shown =
      heading compact "OP[" "OPs\n"
      ++ cells s.cpu.code_mem (λ v. element compact (hex v)) s.cpu.code_mem_size 0
      ++ closing compact

  abbrev pub arrays_shown : Output
  arrays_shown =
      heading compact "AR[" "AR\n"
      ++ refs s.arr_mem arr_tag compact s.arr_mem.size 0
      ++ closing compact

  abbrev pub conns_shown : Output
  conns_shown =
      heading compact "NR[" "NR\n"
      ++ refs s.net_conn net_tag compact s.net_conn.size 0
      ++ closing compact

  print_cpu_const_mem-ok : print_cpu_const_mem compact s ≡ ok consts_shown s
  unfolding print_cpu_const_mem
  print_cpu_const_mem-ok =
      let loop =
        print_cells-ok read_const s.cpu.const_mem (λ v. element compact (int v)) s
          (s.cpu.const_mem_size / 4) 0
          λ j low lt. rw (lt→ltb j s.cpu.const_mem_size (omega arith)) refl in
      rw loop refl

  print_cpu_code_mem-ok : print_cpu_code_mem compact s ≡ ok code_shown s
  unfolding print_cpu_code_mem
  print_cpu_code_mem-ok =
      let loop =
        print_cells-ok read_code s.cpu.code_mem (λ v. element compact (hex v)) s s.cpu.code_mem_size
          0 λ j low lt. rw (lt→ltb j s.cpu.code_mem_size (omega arith)) refl in
      rw loop refl

  arr_print-ok : arr_print compact s ≡ ok arrays_shown s
  unfolding arr_print
  arr_print-ok = rw (print_refs-ok arr_mem arr_tag compact s s.arr_mem.size 0 (omega arith)) refl

  net_print-ok : net_print compact s ≡ ok conns_shown s
  unfolding net_print
  net_print-ok = rw (print_refs-ok net_conn net_tag compact s s.net_conn.size 0 (omega arith)) refl

pub print_cpu_state_trace-IsFramed :
    (s : Vm) (compact : Bool) (old_pc : ℕ) (op : String)
    → (h : IsFramed s)
    → (print_cpu_state compact s
        ≡ ok
            (text "[CPU DUMP]\n" ∷ print_cpu_mem_size compact s.cpu
              ++ print_cpu_registers compact s.cpu
              ++ consts_shown s compact
              ++ code_shown s compact
              ++ stack_shown s compact
              ++ variables_shown s compact)
            s)
      × (print_trace old_pc op s
          ≡ ok
              ((text "OPC: " ∷ padded old_pc ∷ text " OP: " ∷ column op ∷ [])
                ++ print_cpu_registers true s.cpu
                ++ text "  " ∷ stack_shown s true
                ++ text "    " ∷ variables_shown s true
                ++ text "    " ∷ arrays_shown s true
                ++ text "    " ∷ conns_shown s true
                ++ text "\n" ∷ [])
              s)
unfolding print_cpu_state print_trace
print_cpu_state_trace-IsFramed s compact old_pc op h = (
  rw
      (
        print_cpu_const_mem-ok s compact,
        print_cpu_code_mem-ok s compact,
        print_cpu_stack-ok s h compact,
        print_cpu_local_vars-ok s h compact,
      )
      refl,
  rw
      (
        print_cpu_stack-ok s h true,
        print_cpu_local_vars-ok s h true,
        arr_print-ok s true,
        net_print-ok s true,
      )
      refl,
)
