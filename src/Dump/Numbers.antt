-- ===== src/Dump/Numbers.antt =====
-- The numbers in what a build with DEBUG writes about a machine.
use Prim.Native.String.{String}
use mathlib.Core.List.{append-nil}
use integer_java_virtual_mac.Base.{
  ℕ, zero, suc, ◌+◌, ◌≡◌, refl, ap, ◌∙◌, Bool, true, false, List, [], ◌∷◌, ◌++◌, inl, inr,
  if◌then◌else◌, Bool-cases,
}
use integer_java_virtual_mac.Refs.{index_to_ref}
use integer_java_virtual_mac.Machine.{Cpu, MArr}
use integer_java_virtual_mac.Dump.{
  Output, text, int, padded, hex, column, element, heading, closing, print_cpu_mem_size,
  print_cpu_registers,
}
use integer_java_virtual_mac.Dump.Trace.{cells, refs}

-- The numbers of an output, in their order.
abbrev pub numbers : Output → List ℕ
numbers [] = []
numbers (text t ∷ o) = numbers o
numbers (int n ∷ o) = n ∷ numbers o
numbers (padded n ∷ o) = n ∷ numbers o
numbers (hex n ∷ o) = n ∷ numbers o
numbers (column t ∷ o) = numbers o

-- The `n` words of a memory from index `i` on.
abbrev pub words : (ℕ → ℕ) → ℕ → ℕ → List ℕ
words mem zero i = []
words mem (suc n) i = mem i ∷ words mem n (i + 1)

-- The references to the slots in use, among `n` from index `i` on.
abbrev pub in_use : {A : Type 0} → MArr A → ℕ → ℕ → ℕ → List ℕ
in_use m tag zero i = []
in_use m tag (suc n) i =
    if m.map i then index_to_ref tag i ∷ in_use m tag n (i + 1) else in_use m tag n (i + 1)

pub numbers-append : (a b : Output) → numbers (a ++ b) ≡ numbers a ++ numbers b
numbers-append [] b = refl
numbers-append (text t ∷ a) b = numbers-append a b
numbers-append (int n ∷ a) b = ap (λ (l : List ℕ). n ∷ l) (numbers-append a b)
numbers-append (padded n ∷ a) b = ap (λ (l : List ℕ). n ∷ l) (numbers-append a b)
numbers-append (hex n ∷ a) b = ap (λ (l : List ℕ). n ∷ l) (numbers-append a b)
numbers-append (column t ∷ a) b = numbers-append a b

numbers-cells :
    (mem : ℕ → ℕ) (show : ℕ → Output) (n i : ℕ)
    → ((v : ℕ) → numbers (show v) ≡ v ∷ [])
    → numbers (cells mem show n i) ≡ words mem n i
numbers-cells mem show zero i one = refl
numbers-cells mem show (suc n) i one =
    rw (numbers-append (show (mem i)) (cells mem show n (i + 1)), one (mem i))
      (ap (λ (l : List ℕ). mem i ∷ l) (numbers-cells mem show n (i + 1) one))

pub numbers-int : (compact : Bool) (v : ℕ) → numbers (element compact (int v)) ≡ v ∷ []
numbers-int true v = refl
numbers-int false v = refl

pub numbers-hex : (compact : Bool) (v : ℕ) → numbers (element compact (hex v)) ≡ v ∷ []
numbers-hex true v = refl
numbers-hex false v = refl

numbers-refs :
    {A : Type 0} (m : MArr A) (tag : ℕ) (compact : Bool) (n i : ℕ)
    → numbers (refs m tag compact n i) ≡ in_use m tag n i
numbers-refs m tag compact zero i = refl
numbers-refs m tag compact (suc n) i = elim (Bool-cases (m.map i)) [
  | inl used ↦
      rw
        (
          used,
          numbers-append (element compact (hex (index_to_ref tag i)))
              (refs m tag compact n (i + 1)),
          numbers-hex compact (index_to_ref tag i),
        )
        (ap (λ (l : List ℕ). index_to_ref tag i ∷ l) (numbers-refs m tag compact n (i + 1)))
  | inr free ↦ rw free (numbers-refs m tag compact n (i + 1))
]

-- A list in an output shows no numbers but those of its elements.
numbers-list :
    (compact : Bool) (short long : String) (o : Output)
    → numbers (heading compact short long ++ o ++ closing compact) ≡ numbers o
numbers-list true short long o = numbers-append o (closing true) ∙ append-nil (numbers o)
numbers-list false short long o = numbers-append o (closing false) ∙ append-nil (numbers o)

pub list-cells :
    (compact : Bool) (short long : String) (mem : ℕ → ℕ) (show : ℕ → Output) (n i : ℕ)
    → ((v : ℕ) → numbers (show v) ≡ v ∷ [])
    → numbers (heading compact short long ++ cells mem show n i ++ closing compact) ≡ words mem n i
list-cells compact short long mem show n i one =
    numbers-list compact short long (cells mem show n i) ∙ numbers-cells mem show n i one

pub list-refs :
    {A : Type 0} (m : MArr A) (tag : ℕ) (compact : Bool) (short long : String) (n : ℕ)
    → numbers (heading compact short long ++ refs m tag compact n 0 ++ closing compact)
      ≡ in_use m tag n 0
list-refs m tag compact short long n =
    numbers-list compact short long (refs m tag compact n 0) ∙ numbers-refs m tag compact n 0

pub numbers-sizes :
    (compact : Bool) (c : Cpu)
    → numbers (print_cpu_mem_size compact c)
      ≡ c.const_mem_size ∷ c.code_mem_size ∷ c.stack_size ∷ c.nv ∷ []
unfolding print_cpu_mem_size
numbers-sizes true c = refl
numbers-sizes false c = refl

pub numbers-registers :
    (compact : Bool) (c : Cpu)
    → numbers (print_cpu_registers compact c) ≡ c.pc ∷ c.sp ∷ c.fp ∷ c.lv ∷ c.nv ∷ []
unfolding print_cpu_registers
numbers-registers true c = refl
numbers-registers false c = refl
