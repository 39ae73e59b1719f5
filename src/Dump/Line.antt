-- ===== src/Dump/Line.antt =====
-- What a build with DEBUG writes about a machine, by the numbers in it.
use Prim.Native.String.{String}
use native.Mathlib.Decide.{dec_lt}
use mathlib.Core.List.{append-nil}
use integer_java_virtual_mac.Base.{
  ℕ, ◌+◌, ◌/◌, ◌≤◌, ◌<◌, ◌≡◌, refl, ap, ◌∙◌, Bool, true, [], ◌∷◌, ◌++◌, inl, inr, arith,
}
use integer_java_virtual_mac.Base.Word.{wrap}
use integer_java_virtual_mac.Refs.{arr_tag, net_tag}
use integer_java_virtual_mac.Machine.{Vm, ok}
use integer_java_virtual_mac.Dump.{
  Output, text, int, padded, hex, column, element, frame_rounds, print_cpu_mem_size,
  print_cpu_registers, print_cpu_state, print_trace,
}
use integer_java_virtual_mac.Dump.Trace.{
  IsFramed, stack_shown, variables_shown, consts_shown, code_shown, arrays_shown, conns_shown,
  print_cpu_state_trace-IsFramed,
}
use integer_java_virtual_mac.Dump.Numbers.{
  numbers, words, in_use, numbers-append, list-cells, list-refs, numbers-int, numbers-hex,
  numbers-sizes, numbers-registers,
}

-- The frame has `k` words from `fp` up to the top, and the local variables lie in the stack.
pub record HasFrame (s : Vm) (k : ℕ) : Type 0 where
  pub stack_int : s.cpu.stack_size < 0x8000_0000
  pub top : wrap (s.cpu.sp + 1) ≡ s.cpu.fp + k
  pub word : s.cpu.sp < 0x1_0000_0000
  pub fits : s.cpu.fp + k ≤ s.cpu.stack_size
  pub variables : s.cpu.lv + s.cpu.nv ≤ s.cpu.stack_size

module _ (s : Vm) (k : ℕ) (h : HasFrame s k) where
  framed : IsFramed s
  framed = record {
    stack_int = h.stack_int;
    top = elim (dec_lt s.cpu.sp s.cpu.stack_size) [
      | yes lt ↦ inr lt
      | no over ↦ inl (ground (arith, h.top, h.word, h.fits, h.stack_int))
    ];
    variables = h.variables;
  }

  rounds : frame_rounds s.cpu ≡ k
  rounds = ground (arith, h.top, h.word, h.fits, h.stack_int)

  -- What the lists of the constants, the code, the stack and the variables show, one after another.
  numbers-stack_shown :
      (compact : Bool) → numbers (stack_shown s compact) ≡ words s.cpu.stack k s.cpu.fp
  numbers-stack_shown compact =
      list-cells compact "S[" "Stack\n" s.cpu.stack (λ v. element compact (int v))
        (frame_rounds s.cpu) s.cpu.fp (numbers-int compact)
      ∙ ap (λ (n : ℕ). words s.cpu.stack n s.cpu.fp) rounds

  numbers-variables_shown :
      (compact : Bool) → numbers (variables_shown s compact) ≡ words s.cpu.stack s.cpu.nv s.cpu.lv
  numbers-variables_shown compact =
      list-cells compact "LV[" "LV\n" s.cpu.stack (λ v. element compact (int v)) s.cpu.nv s.cpu.lv
        (numbers-int compact)

  numbers-state :
      (compact : Bool)
      → numbers (
          text "[CPU DUMP]\n" ∷ print_cpu_mem_size compact s.cpu
          ++ print_cpu_registers compact s.cpu
          ++ consts_shown s compact
          ++ code_shown s compact
          ++ stack_shown s compact
          ++ variables_shown s compact)
        ≡ (s.cpu.const_mem_size ∷ s.cpu.code_mem_size ∷ s.cpu.stack_size ∷ s.cpu.nv ∷ [])
          ++ (s.cpu.pc ∷ s.cpu.sp ∷ s.cpu.fp ∷ s.cpu.lv ∷ s.cpu.nv ∷ [])
          ++ words s.cpu.const_mem (s.cpu.const_mem_size / 4) 0
          ++ words s.cpu.code_mem s.cpu.code_mem_size 0
          ++ words s.cpu.stack k s.cpu.fp
          ++ words s.cpu.stack s.cpu.nv s.cpu.lv
  numbers-state compact =
      let m = text "[CPU DUMP]\n" ∷ print_cpu_mem_size compact s.cpu in
      let r = print_cpu_registers compact s.cpu in
      let a = consts_shown s compact in
      let b = code_shown s compact in
      let c = stack_shown s compact in
      let consts =
        list-cells compact "C[" "Consts\n" s.cpu.const_mem (λ v. element compact (int v))
          (s.cpu.const_mem_size / 4) 0 (numbers-int compact) in
      let code =
        list-cells compact "OP[" "OPs\n" s.cpu.code_mem (λ v. element compact (hex v))
          s.cpu.code_mem_size 0 (numbers-hex compact) in
      rw
        (
          numbers-append (m ++ r ++ a ++ b ++ c) (variables_shown s compact),
          numbers-append (m ++ r ++ a ++ b) c,
          numbers-append (m ++ r ++ a) b,
          numbers-append (m ++ r) a,
          numbers-append m r,
          numbers-sizes compact s.cpu,
          numbers-registers compact s.cpu,
          consts,
          code,
          numbers-stack_shown compact,
          numbers-variables_shown compact,
        )
        refl

  -- What the line shows behind the registers.
  numbers-line :
      numbers (
        text "  " ∷ stack_shown s true
        ++ text "    " ∷ variables_shown s true
        ++ text "    " ∷ arrays_shown s true
        ++ text "    " ∷ conns_shown s true
        ++ text "\n" ∷ [])
      ≡ words s.cpu.stack k s.cpu.fp
        ++ words s.cpu.stack s.cpu.nv s.cpu.lv
        ++ in_use s.arr_mem arr_tag s.arr_mem.size 0
        ++ in_use s.net_conn net_tag s.net_conn.size 0
  numbers-line =
      let a = text "  " ∷ stack_shown s true in
      let b = text "    " ∷ variables_shown s true in
      let c = text "    " ∷ arrays_shown s true in
      let d = text "    " ∷ conns_shown s true in
      rw
        (
          numbers-append (a ++ b ++ c ++ d) (text "\n" ∷ []),
          numbers-append (a ++ b ++ c) d,
          numbers-append (a ++ b) c,
          numbers-append a b,
          numbers-stack_shown true,
          numbers-variables_shown true,
          list-refs s.arr_mem arr_tag true "AR[" "AR\n" s.arr_mem.size,
          list-refs s.net_conn net_tag true "NR[" "NR\n" s.net_conn.size,
          append-nil (
              words s.cpu.stack k s.cpu.fp
              ++ words s.cpu.stack s.cpu.nv s.cpu.lv
              ++ in_use s.arr_mem arr_tag s.arr_mem.size 0
              ++ in_use s.net_conn net_tag s.net_conn.size 0),
        )
        refl

-- Take a machine with `k` words from FP up to the top of its stack, and with these and the local
-- variables inside the stack. `print_cpu_state` and the line that `step` writes behind an
-- instruction touch no memory outside a block and leave the machine as it was. The numbers that the
-- state shows are the sizes of the memories, the registers, all constants, all of the code, the `k`
-- words from FP on and the local variables. The line begins with the old program counter, the name
-- of the instruction and each register behind its name, and the numbers after that are the `k`
-- words, the local variables, and the references to the arrays and to the connections in use.
pub print_cpu_state-print_trace :
    (s : Vm) (k : ℕ) (compact : Bool) (old_pc : ℕ) (op : String)
    → HasFrame s k
    → ((out : Output) × (print_cpu_state compact s ≡ ok out s)
        × (numbers out
            ≡ (s.cpu.const_mem_size ∷ s.cpu.code_mem_size ∷ s.cpu.stack_size ∷ s.cpu.nv ∷ [])
              ++ (s.cpu.pc ∷ s.cpu.sp ∷ s.cpu.fp ∷ s.cpu.lv ∷ s.cpu.nv ∷ [])
              ++ words s.cpu.const_mem (s.cpu.const_mem_size / 4) 0
              ++ words s.cpu.code_mem s.cpu.code_mem_size 0
              ++ words s.cpu.stack k s.cpu.fp
              ++ words s.cpu.stack s.cpu.nv s.cpu.lv))
      × ((rest : Output) × (print_trace old_pc op s
            ≡ ok
                (text "OPC: "
                  ∷ padded old_pc
                  ∷ text " OP: "
                  ∷ column op
                  ∷ text "PC:"
                  ∷ padded s.cpu.pc
                  ∷ text "  SP:"
                  ∷ padded s.cpu.sp
                  ∷ text "  FP:"
                  ∷ padded s.cpu.fp
                  ∷ text "  LV:"
                  ∷ padded s.cpu.lv
                  ∷ text "  NV:"
                  ∷ padded s.cpu.nv
                  ∷ rest)
                s)
          × (numbers rest
              ≡ words s.cpu.stack k s.cpu.fp
                ++ words s.cpu.stack s.cpu.nv s.cpu.lv
                ++ in_use s.arr_mem arr_tag s.arr_mem.size 0
                ++ in_use s.net_conn net_tag s.net_conn.size 0))
unfolding print_cpu_registers
print_cpu_state-print_trace s k compact old_pc op h =
    let (state, trace) = print_cpu_state_trace-IsFramed s compact old_pc op (framed s k h) in
    (
      (
        text "[CPU DUMP]\n" ∷ print_cpu_mem_size compact s.cpu
            ++ print_cpu_registers compact s.cpu
            ++ consts_shown s compact
            ++ code_shown s compact
            ++ stack_shown s compact
            ++ variables_shown s compact,
        state,
        numbers-state s k h compact,
      ),
      (
        text "  " ∷ stack_shown s true
            ++ text "    " ∷ variables_shown s true
            ++ text "    " ∷ arrays_shown s true
            ++ text "    " ∷ conns_shown s true
            ++ text "\n" ∷ [],
        trace,
        numbers-line s k h,
      ),
    )
