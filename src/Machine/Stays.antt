-- ===== src/Machine/Stays.antt =====
-- What no command but the loader writes: the code, the constants, and the flag of WIDE.
use mathlib.Core.Path.{subst}
use integer_java_virtual_mac.Base.{
  ℕ, Bool, true, false, ◌≡◌, refl, ◌∙◌, [], ◌∷◌, List, if◌then◌else◌,
}
use integer_java_virtual_mac.Machine.State.{Vm, Call}
use integer_java_virtual_mac.Machine.Command.{
  Error, Run, ok, exit, fault, out_of_fuel, M, and_then, alloc, read_stack, write_stack, system,
}

-- The program: its code, its constants, and whether the instruction stands behind WIDE.
pub record Fixed : Type 0 where
  pub wide : Bool
  pub code : ℕ → ℕ
  pub code_size : ℕ
  pub const : ℕ → ℕ
  pub const_size : ℕ

abbrev pub fixed : Vm → Fixed
fixed s = record {
  wide = s.next_op_wide;
  code = s.cpu.code_mem;
  code_size = s.cpu.code_mem_size;
  const = s.cpu.const_mem;
  const_size = s.cpu.const_mem_size;
}

-- A run that has program `p` if it returns.
pub data Stays {ℓ} {A : Type ℓ} (p : Fixed) : Run A → Type ℓ where
  stays : {a : A} {t : Vm} → fixed t ≡ p → Stays p (ok a t)
  gives_up : {e : Error} {t : Vm} → Stays p (exit e t)
  faults : Stays p fault
  stops : Stays p out_of_fuel

module _ {ℓ κ} {A : Type ℓ} {B : Type κ} (p : Fixed) where
  pub Stays-bind :
      {r : Run A}
      → (k : A → M B) → Stays p r
      → ((a : A) (s : Vm) → Stays (fixed s) (k a s))
      → Stays p (and_then r k)
  Stays-bind k (stays {a} {t} e) next = subst (λ q. Stays q (k a t)) e (next a t)
  Stays-bind k gives_up next = gives_up
  Stays-bind k faults next = faults
  Stays-bind k stops next = stops

module _ {ℓ} {A : Type ℓ} (p : Fixed) where
  pub Stays-if : (b : Bool) {x y : Run A} → Stays p x → Stays p y → Stays p (if b then x else y)
  Stays-if true l r = l
  Stays-if false l r = r

  pub Stays-if_at :
      (b : Bool) (s : Vm) (m k : M A)
      → Stays p (m s)
      → Stays p (k s)
      → Stays p ((if b then m else k) s)
  Stays-if_at true s m k l r = l
  Stays-if_at false s m k l r = r

pub ruleset stays_rules = (Stays-bind, Stays-if, Stays-if_at, stays, gives_up, faults, stops, refl)

pub alloc-Stays : (s : Vm) → Stays (fixed s) (alloc s)
unfolding alloc
alloc-Stays s = search stays_rules

pub read_stack-Stays : (i : ℕ) (s : Vm) → Stays (fixed s) (read_stack i s)
unfolding read_stack
read_stack-Stays i s = search stays_rules

pub write_stack-Stays : (i v : ℕ) (s : Vm) → Stays (fixed s) (write_stack i v s)
unfolding write_stack
write_stack-Stays i v s = search stays_rules

pub system-Stays : (c : Call) (s : Vm) → Stays (fixed s) (system c s)
unfolding system
system-Stays c s = search stays_rules
