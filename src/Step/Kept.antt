-- ===== src/Step/Kept.antt =====
-- The invariant of `step` and `run` of src/interpreter.c.
use integer_java_virtual_mac.Base.{
  ℕ, zero, suc, Bool, true, false, Option, none, some, ◌≡◌, refl, ◌∙◌, ap, Bool-cases, inl, inr,
}
use integer_java_virtual_mac.Machine.{Vm, Error, Run, ok, exit, fault, out_of_fuel, M, and_then}
use integer_java_virtual_mac.Machine.Stays.{fixed, Stays, stays, gives_up, faults, stops}
use integer_java_virtual_mac.Opcode.{
  Op, nop, bipush, ldc_w, iload, istore, pop, dup, swap, iadd, isub, iand, iinc, ifeq, iflt, icmpeq,
  goto, ireturn, ior, invokevirtual, wide, in_op, out, err, halt, newarray, iaload, iastore, gc,
  netbind, netconnect, netin, netout, netclose, decode,
}
use integer_java_virtual_mac.Interpreter.Kept.{
  next_byte-Stays, exec_op_nop-Stays, exec_op_bipush-Stays, exec_op_ldc_w-Stays,
  exec_op_iload-Stays, exec_op_istore-Stays, exec_op_pop-Stays, exec_op_dup-Stays,
  exec_op_swap-Stays, exec_op_iadd-Stays, exec_op_isub-Stays, exec_op_iand-Stays,
  exec_op_iinc-Stays, exec_op_ifeq-Stays, exec_op_iflt-Stays, exec_op_icmpeq-Stays,
  exec_op_goto-Stays, exec_op_ireturn-Stays, exec_op_ior-Stays, exec_op_invokevirtual-Stays,
  exec_op_in-Stays, exec_op_out-Stays, exec_op_err-Stays, exec_op_halt-Stays,
  exec_op_newarray-Stays, exec_op_iaload-Stays, exec_op_iastore-Stays, exec_op_gc-Stays,
  exec_op_netbind-Stays, exec_op_netconnect-Stays, exec_op_netin-Stays, exec_op_netout-Stays,
  exec_op_netclose-Stays,
}
use integer_java_virtual_mac.Step.{exec_op_wide, execute, dispatch, step, finished, run}

-- The code and the constants are the same, and no WIDE is left pending if none was.
pub record IsKept (s t : Vm) : Type 0 where
  pub code : t.cpu.code_mem ≡ s.cpu.code_mem
  pub code_size : t.cpu.code_mem_size ≡ s.cpu.code_mem_size
  pub const : t.cpu.const_mem ≡ s.cpu.const_mem
  pub const_size : t.cpu.const_mem_size ≡ s.cpu.const_mem_size
  pub wide : s.next_op_wide ≡ false → t.next_op_wide ≡ false

-- A run that keeps the program of `s` if it returns.
pub data Keeps {A : Type 0} (s : Vm) : Run A → Type 0 where
  keeps : {a : A} {t : Vm} → IsKept s t → Keeps s (ok a t)
  keeps_exit : {e : Error} {t : Vm} → Keeps s (exit e t)
  keeps_fault : Keeps s fault
  keeps_fuel : Keeps s out_of_fuel

IsKept-refl : (s : Vm) → IsKept s s
IsKept-refl s = record {
  code = refl;
  code_size = refl;
  const = refl;
  const_size = refl;
  wide = λ h. h;
}

IsKept-trans : (s t u : Vm) → IsKept s t → IsKept t u → IsKept s u
IsKept-trans s t u f g = record {
  code = g.code ∙ f.code;
  code_size = g.code_size ∙ f.code_size;
  const = g.const ∙ f.const;
  const_size = g.const_size ∙ f.const_size;
  wide = λ h. g.wide (f.wide h);
}

module _ {A : Type 0} where
  Stays-Keeps : (s : Vm) {r : Run A} → Stays (fixed s) r → Keeps s r
  Stays-Keeps s (stays e) = keeps (record {
    code = ap (λ p. p.code) e;
    code_size = ap (λ p. p.code_size) e;
    const = ap (λ p. p.const) e;
    const_size = ap (λ p. p.const_size) e;
    wide = λ h. ap (λ p. p.wide) e ∙ h;
  })
  Stays-Keeps s gives_up = keeps_exit
  Stays-Keeps s faults = keeps_fault
  Stays-Keeps s stops = keeps_fuel

  Keeps-weaken : (s t : Vm) {r : Run A} → IsKept s t → Keeps t r → Keeps s r
  Keeps-weaken s t f (keeps g) = keeps (IsKept-trans s t _ f g)
  Keeps-weaken s t f keeps_exit = keeps_exit
  Keeps-weaken s t f keeps_fault = keeps_fault
  Keeps-weaken s t f keeps_fuel = keeps_fuel

Keeps-bind :
    {A B : Type 0} (s : Vm) {r : Run A} (k : A → M B)
    → Keeps s r
    → ((a : A) (t : Vm) → Keeps t (k a t))
    → Keeps s (and_then r k)
Keeps-bind s k (keeps {a} {t} f) next = Keeps-weaken s t f (next a t)
Keeps-bind s k keeps_exit next = keeps_exit
Keeps-bind s k keeps_fault next = keeps_fault
Keeps-bind s k keeps_fuel next = keeps_fuel

-- The reset of the flag after the instruction behind WIDE.
reset-Keeps :
    (s : Vm) {r : Run Bool}
    → Keeps (record s { next_op_wide = true }) r
    → Keeps s (and_then r λ _ t. ok tt (record t { next_op_wide = false }))
reset-Keeps s (keeps f) = keeps (record {
  code = f.code;
  code_size = f.code_size;
  const = f.const;
  const_size = f.const_size;
  wide = λ _. refl;
})
reset-Keeps s keeps_exit = keeps_exit
reset-Keeps s keeps_fault = keeps_fault
reset-Keeps s keeps_fuel = keeps_fuel

exec_op_wide-Keeps :
    (inner : M Bool) → ((s : Vm) → Keeps s (inner s)) → (s : Vm) → Keeps s (exec_op_wide inner s)
unfolding exec_op_wide
exec_op_wide-Keeps inner h s = reset-Keeps s (h (record s { next_op_wide = true }))

execute-Keeps :
    (inner : M Bool)
    → ((s : Vm) → Keeps s (inner s))
    → (op : Op) (s : Vm) → Keeps s (execute inner op s)
unfolding execute
execute-Keeps inner h wide s = exec_op_wide-Keeps inner h s
execute-Keeps inner h nop s = Stays-Keeps s (exec_op_nop-Stays s)
execute-Keeps inner h bipush s = Stays-Keeps s (exec_op_bipush-Stays s)
execute-Keeps inner h ldc_w s = Stays-Keeps s (exec_op_ldc_w-Stays s)
execute-Keeps inner h iload s = Stays-Keeps s (exec_op_iload-Stays s)
execute-Keeps inner h istore s = Stays-Keeps s (exec_op_istore-Stays s)
execute-Keeps inner h pop s = Stays-Keeps s (exec_op_pop-Stays s)
execute-Keeps inner h dup s = Stays-Keeps s (exec_op_dup-Stays s)
execute-Keeps inner h swap s = Stays-Keeps s (exec_op_swap-Stays s)
execute-Keeps inner h iadd s = Stays-Keeps s (exec_op_iadd-Stays s)
execute-Keeps inner h isub s = Stays-Keeps s (exec_op_isub-Stays s)
execute-Keeps inner h iand s = Stays-Keeps s (exec_op_iand-Stays s)
execute-Keeps inner h iinc s = Stays-Keeps s (exec_op_iinc-Stays s)
execute-Keeps inner h ifeq s = Stays-Keeps s (exec_op_ifeq-Stays s)
execute-Keeps inner h iflt s = Stays-Keeps s (exec_op_iflt-Stays s)
execute-Keeps inner h icmpeq s = Stays-Keeps s (exec_op_icmpeq-Stays s)
execute-Keeps inner h goto s = Stays-Keeps s (exec_op_goto-Stays s)
execute-Keeps inner h ireturn s = Stays-Keeps s (exec_op_ireturn-Stays s)
execute-Keeps inner h ior s = Stays-Keeps s (exec_op_ior-Stays s)
execute-Keeps inner h invokevirtual s = Stays-Keeps s (exec_op_invokevirtual-Stays s)
execute-Keeps inner h in_op s = Stays-Keeps s (exec_op_in-Stays s)
execute-Keeps inner h out s = Stays-Keeps s (exec_op_out-Stays s)
execute-Keeps inner h err s = Stays-Keeps s (exec_op_err-Stays s)
execute-Keeps inner h halt s = Stays-Keeps s (exec_op_halt-Stays s)
execute-Keeps inner h newarray s = Stays-Keeps s (exec_op_newarray-Stays s)
execute-Keeps inner h iaload s = Stays-Keeps s (exec_op_iaload-Stays s)
execute-Keeps inner h iastore s = Stays-Keeps s (exec_op_iastore-Stays s)
execute-Keeps inner h gc s = Stays-Keeps s (exec_op_gc-Stays s)
execute-Keeps inner h netbind s = Stays-Keeps s (exec_op_netbind-Stays s)
execute-Keeps inner h netconnect s = Stays-Keeps s (exec_op_netconnect-Stays s)
execute-Keeps inner h netin s = Stays-Keeps s (exec_op_netin-Stays s)
execute-Keeps inner h netout s = Stays-Keeps s (exec_op_netout-Stays s)
execute-Keeps inner h netclose s = Stays-Keeps s (exec_op_netclose-Stays s)

dispatch-Keeps :
    (inner : M Bool)
    → ((s : Vm) → Keeps s (inner s))
    → (o : Option Op) (s : Vm) → Keeps s (dispatch inner o s)
unfolding dispatch
dispatch-Keeps inner h none s = Stays-Keeps s (stays refl)
dispatch-Keeps inner h (some op) s =
    Keeps-bind s _ (execute-Keeps inner h op s) λ _ t. keeps (IsKept-refl t)

pub step-Keeps : (fuel : ℕ) (s : Vm) → Keeps s (step fuel s)
unfolding step
step-Keeps zero s = keeps_fuel
step-Keeps (suc fuel) s =
    Keeps-bind s _ (Stays-Keeps s (next_byte-Stays s))
      λ b t. dispatch-Keeps (step fuel) (step-Keeps fuel) (decode b) t

-- A run of the machine that returns, of any number of instructions, whatever the allocator and the
-- network answer, has written neither to the code nor to the constants, and their sizes are the
-- same; if no WIDE was pending at the start, none is at the end.
pub run-Keeps : (wides fuel : ℕ) (s : Vm) → Keeps s (run wides fuel s)
unfolding run
run-Keeps wides zero s = keeps_fuel
run-Keeps wides (suc fuel) s = elim (Bool-cases (finished s)) [
  | inl stop ↦ rw stop (keeps (IsKept-refl s))
  | inr more ↦ rw more (Keeps-bind s _ (step-Keeps wides s) λ _ t. run-Keeps wides fuel t)
]
