-- ===== src/Debugger/Recording.antt =====
-- The call history of src/ijdb.c is kept without a move of the machine but for its allocations.
use integer_java_virtual_mac.Base.{
  ℕ, zero, suc, ◌+◌, Bool, true, false, Option, some, refl, if◌then◌else◌, ltb, Bool-cases, inl,
  inr,
}
use integer_java_virtual_mac.Base.Word.{sub_word, wrap}
use integer_java_virtual_mac.Machine.{Vm, Run, ok, fault, and_then, read_stack}
use integer_java_virtual_mac.Opcode.{Op, invokevirtual, ireturn, decode}
use integer_java_virtual_mac.Init.Vars.{
  Reads, reads, gives_up, faults, get_code_byte-Reads, get_code_short-Reads, get_constant-Reads,
}
use integer_java_virtual_mac.Symbols.{SymbolBlock}
use integer_java_virtual_mac.Debugger.{
  Dbg, D, read_history, push_history, read_breakpoint, symbol_addr, store_args, history_room,
  store_func_call, remove_last_func_call, record_op, create_call_history,
}
use integer_java_virtual_mac.Debugger.Moves.{
  here, IsDebugged, Moved, moved, move_exit, move_fault, Debugged, debug_fault, Debugged-change,
  Debugged-done, Debugged-weaken, Debugged-bind, Debugged-if, on_vm-Debugged, alloc-Moved,
}

-- A command that does no more than move the machine, wherever it starts.
abbrev pub Runs : {A : Type 0} → ℕ → D A → Type 0
Runs wides m = (d : Dbg) (s : Vm) → Debugged wides d s (m d s)

module _ (wides : ℕ) where
  Reads-Moved : {A : Type 0} (s : Vm) {r : Run A} → Reads s r → Moved wides s r
  Reads-Moved s reads = moved here
  Reads-Moved s gives_up = move_exit
  Reads-Moved s faults = move_fault

  -- A test of a bound before an access to memory.
  checked-Debugged :
      {A : Type 0} (b : Bool) (d : Dbg) (s : Vm) {x : Run (A × Dbg)}
      → Debugged wides d s x
      → Debugged wides d s (if b then x else fault)
  checked-Debugged b d s ok_side = Debugged-if wides b d s ok_side debug_fault

  pub read_history-Runs : (i : ℕ) → Runs wides (read_history i)
  unfolding read_history
  read_history-Runs i d s = checked-Debugged _ d s (Debugged-done wides _ d s)

  push_history-Runs : (v : ℕ) → Runs wides (push_history v)
  unfolding push_history
  push_history-Runs v d s = checked-Debugged _ d s (
      Debugged-weaken wides d _ s s (Debugged-change wides d _ s refl (λ h. h))
        (Debugged-done wides tt _ s))

  pub read_breakpoint-Runs : (i : ℕ) → Runs wides (read_breakpoint i)
  unfolding read_breakpoint
  read_breakpoint-Runs i d s = checked-Debugged _ d s (Debugged-done wides _ d s)

  pub symbol_addr-Runs : (b : SymbolBlock) (i : ℕ) → Runs wides (symbol_addr b i)
  unfolding symbol_addr
  symbol_addr-Runs b i d s = checked-Debugged _ d s (Debugged-done wides _ d s)

  read_stack-Runs :
      (i : ℕ) (d : Dbg) (s : Vm) → Debugged wides d s (and_then (read_stack i s) λ v. ok (v, d))
  unfolding read_stack
  read_stack-Runs i d s = elim (Bool-cases (ltb i s.cpu.stack_size)) [
    | inl h ↦ rw h (Debugged-done wides _ d s)
    | inr h ↦ rw h debug_fault
  ]

  store_args-Runs : (n i : ℕ) → Runs wides (store_args n i)
  unfolding store_args
  store_args-Runs zero i d s = Debugged-done wides tt d s
  store_args-Runs (suc n) i d s =
      Debugged-bind wides d s _ (read_stack-Runs (sub_word s.cpu.sp i) d s) λ v d₁ s₁.
        Debugged-bind wides d₁ s₁ _ (push_history-Runs v d₁ s₁) λ _. store_args-Runs n (i + 1)

  -- A change of fields that are no settings.
  pub change-Debugged :
      {A : Type 0} (d d' : Dbg) (s : Vm) {r : Run (A × Dbg)}
      → IsDebugged wides d s d' s
      → Debugged wides d' s r
      → Debugged wides d s r
  change-Debugged d d' s same rest = Debugged-weaken wides d d' s s same rest

  pub if-Debugged :
      {A : Type 0} (b : Bool) (d : Dbg) (s : Vm) (m k : D A)
      → Debugged wides d s (m d s)
      → Debugged wides d s (k d s)
      → Debugged wides d s ((if b then m else k) d s)
  if-Debugged true d s m k l r = l
  if-Debugged false d s m k l r = r

  history_room-Runs : (need : ℕ) → Runs wides (history_room need)
  unfolding history_room
  history_room-Runs need d s =
      if-Debugged (ltb d.call_history_size (wrap (d.call_history_top + need))) d s _ _
        (change-Debugged d _ s (Debugged-change wides d _ s refl (λ h. h)) (
          Debugged-bind wides _ s _ (on_vm-Debugged wides _ s (alloc-Moved wides s)) λ enough d₁ s₁.
            if-Debugged enough d₁ s₁ _ _
              (change-Debugged d₁ _ s₁ (Debugged-change wides d₁ _ s₁ refl (λ h. h))
                (Debugged-done wides true _ s₁))
              (change-Debugged d₁ _ s₁ (Debugged-change wides d₁ _ s₁ refl (λ h. refl))
                (Debugged-done wides false _ s₁))))
        (Debugged-done wides true d s)

  pub vm-Debugged :
      {A : Type 0} (d : Dbg) (s : Vm) {r : Run A}
      → Reads s r
      → Debugged wides d s (and_then r λ a. ok (a, d))
  vm-Debugged d s r = on_vm-Debugged wides d s (Reads-Moved s r)

  store_func_call-Runs : Runs wides store_func_call
  unfolding store_func_call
  store_func_call-Runs d s =
      Debugged-bind wides d s _ (vm-Debugged d s (get_code_short-Reads s (wrap (s.cpu.pc + 1))))
        λ i d₁ s₁.
          Debugged-bind wides d₁ s₁ _ (vm-Debugged d₁ s₁ (get_constant-Reads s₁ i)) λ addr d₂ s₂.
            Debugged-bind wides d₂ s₂ _ (vm-Debugged d₂ s₂ (get_code_short-Reads s₂ addr))
              λ n d₃ s₃.
                Debugged-bind wides d₃ s₃ _ (history_room-Runs (wrap (2 + n)) d₃ s₃) λ room d₄ s₄.
                  if-Debugged room d₄ s₄ _ _
                    (Debugged-bind wides d₄ s₄ _ (store_args-Runs n 0 d₄ s₄) λ _ d₅ s₅.
                      Debugged-bind wides d₅ s₅ _ (push_history-Runs n d₅ s₅)
                        λ _. push_history-Runs addr)
                    (Debugged-done wides tt d₄ s₄)

  remove_last_func_call-Runs : Runs wides remove_last_func_call
  unfolding remove_last_func_call
  remove_last_func_call-Runs d s =
      change-Debugged d _ s (Debugged-change wides d _ s refl (λ h. h)) (
        Debugged-bind wides _ s _ (read_history-Runs _ _ s) λ n d₁ s₁.
          Debugged-weaken wides d₁ _ s₁ s₁ (Debugged-change wides d₁ _ s₁ refl (λ h. h))
            (Debugged-done wides tt _ s₁))

  record_op-Runs : (o : Option Op) → Runs wides (record_op o)
  record_op-Runs (some invokevirtual) d s = store_func_call-Runs d s
  record_op-Runs (some ireturn) d s = remove_last_func_call-Runs d s
  record_op-Runs _ d s = Debugged-done wides tt d s

  pub create_call_history-Runs : Runs wides create_call_history
  unfolding create_call_history
  create_call_history-Runs d s =
      Debugged-bind wides d s _ (vm-Debugged d s (get_code_byte-Reads s s.cpu.pc))
        λ op. record_op-Runs (decode op)
