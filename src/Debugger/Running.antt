-- ===== src/Debugger/Running.antt =====
-- `dbg_step` of src/ijdb.c and what it prints only move the machine.
use integer_java_virtual_mac.Base.{
  ℕ, zero, suc, ◌+◌, Bool, not, ◌&&◌, ◌||◌, none, refl, [], ◌∷◌, ◌++◌, ◌==◌, ltb,
}
use integer_java_virtual_mac.Base.Word.{sub_word}
use integer_java_virtual_mac.Machine.{Vm, Run}
use integer_java_virtual_mac.Init.Vars.{get_code_byte-Reads}
use integer_java_virtual_mac.Debugger.{
  Dbg, Message, print, unknown_name, find_func_name, addr_to_func_name, find_breakpoint,
  at_breakpoint, read_args, call_args, print_calls, print_func_calls, print_breakpoint_msg,
  op_at_pc, report_breakpoint, dbg_step,
}
use integer_java_virtual_mac.Debugger.Moves.{
  Debugged, Debugged-change, Debugged-done, Debugged-bind, on_vm-Debugged, step-Moved,
  get_name-Moved,
}
use integer_java_virtual_mac.Debugger.Recording.{
  Runs, read_history-Runs, read_breakpoint-Runs, symbol_addr-Runs, change-Debugged, if-Debugged,
  vm-Debugged, create_call_history-Runs,
}

module _ (wides : ℕ) where
  find_func_name-Runs : (n i addr : ℕ) → Runs wides (find_func_name n i addr)
  unfolding find_func_name
  find_func_name-Runs zero i addr d s = Debugged-done wides none d s
  find_func_name-Runs (suc n) i addr d s =
      let b = d.debug_data.func_label in
      Debugged-bind wides d s _ (symbol_addr-Runs wides b i d s) λ at d₁ s₁.
        if-Debugged wides (addr == at) d₁ s₁ _ _
          (on_vm-Debugged wides d₁ s₁ (get_name-Moved wides b i s₁))
          (if-Debugged wides (ltb addr at) d₁ s₁ _ _
            (on_vm-Debugged wides d₁ s₁ (get_name-Moved wides b (sub_word i 1) s₁))
            (find_func_name-Runs n (i + 1) addr d₁ s₁))

  addr_to_func_name-Runs : (addr : ℕ) → Runs wides (addr_to_func_name addr)
  unfolding addr_to_func_name
  addr_to_func_name-Runs addr d s =
      let b = d.debug_data.func_label in
      if-Debugged wides (b.num == 0) d s _ _ (Debugged-done wides unknown_name d s) (
        Debugged-bind wides d s _ (find_func_name-Runs b.num 0 addr d s)
          λ name d₁ s₁. Debugged-done wides _ d₁ s₁)

  find_breakpoint-Runs : (n i pc : ℕ) → Runs wides (find_breakpoint n i pc)
  unfolding find_breakpoint
  find_breakpoint-Runs zero i pc d s = Debugged-done wides 0 d s
  find_breakpoint-Runs (suc n) i pc d s =
      Debugged-bind wides d s _ (read_breakpoint-Runs wides i d s) λ at d₁ s₁.
        if-Debugged wides (at == pc) d₁ s₁ _ _ (Debugged-done wides (i + 1) d₁ s₁)
          (find_breakpoint-Runs n (i + 1) pc d₁ s₁)

  pub at_breakpoint-Runs : Runs wides at_breakpoint
  unfolding at_breakpoint
  at_breakpoint-Runs d s = find_breakpoint-Runs d.brkpts_num 0 s.cpu.pc d s

  read_args-Runs : (n offset : ℕ) → Runs wides (read_args n offset)
  unfolding read_args
  read_args-Runs zero offset d s = Debugged-done wides ([], offset) d s
  read_args-Runs (suc n) offset d s =
      Debugged-bind wides d s _ (read_history-Runs wides (sub_word offset 1) d s) λ v d₁ s₁.
        Debugged-bind wides d₁ s₁ _ (read_args-Runs n (sub_word offset 1) d₁ s₁)
          λ p d₂ s₂. Debugged-done wides _ d₂ s₂

  call_args-Runs : (below : ℕ) → Runs wides (call_args below)
  unfolding call_args
  call_args-Runs below d s =
      if-Debugged wides (below == 0) d s _ _ (Debugged-done wides ([], below) d s) (
        Debugged-bind wides d s _ (read_history-Runs wides (sub_word below 1) d s)
          λ n. read_args-Runs n (sub_word below 1))

  -- What is printed is no setting.
  print-Debugged :
      {A : Type 0} (m : Message) (d : Dbg) (s : Vm) {r : Run (A × Dbg)}
      → Debugged wides (record d { printed = d.printed ++ m ∷ [] }) s r
      → Debugged wides d s r
  print-Debugged m d s rest =
      change-Debugged wides d _ s (Debugged-change wides d _ s refl (λ h. h)) rest

  print-Runs : (m : Message) → Runs wides (print m)
  print-Runs m d s = print-Debugged m d s (Debugged-done wides tt _ s)

  print_calls-Runs : (fuel n offset count : ℕ) → Runs wides (print_calls fuel n offset count)
  unfolding print_calls
  print_calls-Runs zero n offset count d s = Debugged-done wides tt d s
  print_calls-Runs (suc fuel) n offset count d s =
      if-Debugged wides ((offset == 0) || (not (n == 0) && (count == n))) d s _ _
        (Debugged-done wides tt d s)
        (Debugged-bind wides d s _ (read_history-Runs wides (sub_word offset 1) d s) λ addr d₁ s₁.
          Debugged-bind wides d₁ s₁ _ (addr_to_func_name-Runs addr d₁ s₁) λ name d₂ s₂.
            Debugged-bind wides d₂ s₂ _ (call_args-Runs (sub_word offset 1) d₂ s₂)
              λ p d₃ s₃. print-Debugged _ d₃ s₃ (print_calls-Runs fuel n p.1 (count + 1) _ s₃))

  print_breakpoint_msg-Runs : (id : ℕ) → Runs wides (print_breakpoint_msg id)
  unfolding print_breakpoint_msg print_func_calls
  print_breakpoint_msg-Runs id d s =
      print-Debugged _ d s (print_calls-Runs (suc d.call_history_top) 1 d.call_history_top 0 _ s)

  op_at_pc-Runs : Runs wides op_at_pc
  unfolding op_at_pc
  op_at_pc-Runs d s =
      Debugged-bind wides d s _ (vm-Debugged wides d s (get_code_byte-Reads s s.cpu.pc))
        λ b. Debugged-done wides _

  report_breakpoint-Runs : Runs wides report_breakpoint
  unfolding report_breakpoint
  report_breakpoint-Runs d s = Debugged-bind wides d s _ (at_breakpoint-Runs d s) λ id d₁ s₁.
      if-Debugged wides (id == 0) d₁ s₁ _ _ (Debugged-done wides tt d₁ s₁) (
        Debugged-bind wides d₁ s₁ _ (op_at_pc-Runs d₁ s₁) λ op d₂ s₂.
          Debugged-bind wides d₂ s₂ _ (print_breakpoint_msg-Runs id d₂ s₂)
            λ _ d₃ s₃. print-Runs _ d₃ s₃)

  pub dbg_step-Runs : (step_log : Bool) → Runs wides (dbg_step wides step_log)
  unfolding dbg_step
  dbg_step-Runs step_log d s = Debugged-bind wides d s _ (op_at_pc-Runs d s) λ op d₁ s₁.
      Debugged-bind wides d₁ s₁ _ (create_call_history-Runs wides d₁ s₁) λ _ d₂ s₂.
        Debugged-bind wides d₂ s₂ _
          (if-Debugged wides step_log d₂ s₂ _ _ (print-Runs _ d₂ s₂) (Debugged-done wides tt d₂ s₂))
          λ _ d₃ s₃.
            Debugged-bind wides d₃ s₃ _ (on_vm-Debugged wides d₃ s₃ (step-Moved wides s₃))
              λ _. report_breakpoint-Runs
