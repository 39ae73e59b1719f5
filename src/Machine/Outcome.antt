-- ===== src/Machine/Outcome.antt =====
-- Total correctness of a run: it returns or gives up with a message, and never touches memory
-- outside a block nor lacks fuel.
use mathlib.Core.Path.{◌≡◌, subst₂}
use integer_java_virtual_mac.Machine.State.{Vm}
use integer_java_virtual_mac.Machine.Command.{Error, Run, ok, exit, fault, out_of_fuel, M, and_then}

pub data Ends {ℓ κ μ} {A : Type ℓ} (P : A → Vm → Type κ) (Q : Error → Vm → Type μ)
    : Run A → Type (ℓ ⊔ κ ⊔ μ) where
  returns : {a : A} {s : Vm} → P a s → Ends P Q (ok a s)
  exits : {e : Error} {s : Vm} → Q e s → Ends P Q (exit e s)

module _ {ℓ κ μ} {A : Type ℓ} {P : A → Vm → Type κ} {Q : Error → Vm → Type μ} where
  pub Ends-bind {ℓ' κ'} :
      {B : Type ℓ'} {R : B → Vm → Type κ'} {r : Run A} {k : A → M B}
      → Ends P Q r
      → ((a : A) (s : Vm) → P a s → Ends R Q (k a s))
      → Ends R Q (and_then r k)
  Ends-bind (returns p) next = next _ _ p
  Ends-bind (exits q) next = exits q

  pub Ends-mono {κ'} :
      {R : A → Vm → Type κ'} {r : Run A}
      → Ends P Q r
      → ((a : A) (s : Vm) → P a s → R a s)
      → Ends R Q r
  Ends-mono (returns p) weaken = returns (weaken _ _ p)
  Ends-mono (exits q) weaken = exits q

  pub Ends-exits {μ'} :
      {R : Error → Vm → Type μ'} {r : Run A}
      → Ends P Q r
      → ((e : Error) (s : Vm) → Q e s → R e s)
      → Ends P R r
  Ends-exits (returns p) weaken = returns p
  Ends-exits (exits q) weaken = exits (weaken _ _ q)

  -- What holds of every return holds of the one that was seen.
  pub Ends-ok : {r : Run A} {a : A} {s : Vm} → Ends P Q r → r ≡ ok a s → P a s
  Ends-ok {a = b} {s = t} (returns {a} {s} p) e =
      let p₁ : a ≡ b = cc in let p₂ : s ≡ t = cc in subst₂ P p₁ p₂ p
  Ends-ok (exits q) e = cc

-- What cannot give up may be said to give up in any way.
pub Ends-never {ℓ κ μ} :
    {A : Type ℓ} {P : A → Vm → Type κ} {Q : Error → Vm → Type μ} {r : Run A}
    → Ends P (λ _ _. ⊥) r
    → Ends P Q r
Ends-never (returns p) = returns p
Ends-never (exits q) = absurd q

-- A run that did not return.
pub data Lasts {A : Type 0} : Run A → Type 0 where
  lasts_exit : {e : Error} {t : Vm} → Lasts (exit e t)
  lasts_fault : Lasts fault
  lasts_fuel : Lasts out_of_fuel
