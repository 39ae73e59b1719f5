-- ===== src/Marr/Slots.antt =====
-- The invariant of memory: a slot in use of a mapped array, src/marr.c, lies below the size and
-- holds an object, the block of an array in use has one cell more than its count, and what
-- `destroy_ijvm` will free has not been freed.
use integer_java_virtual_mac.Base.{
  ℕ, ◌+◌, ◌<◌, ◌≡◌, ◌≢◌, refl, true, some, ◌==◌, inl, inr, Bool-cases, arith,
}
use integer_java_virtual_mac.Machine.{Pointer, dangling, MArr, Block, Sock, Vm, update}
use integer_java_virtual_mac.Marr.{no_slots, fill, clear}

-- Every slot in use holds an object with property `P`.
abbrev pub Holds : {A : Type 0} → (A → Type 0) → MArr A → Type 0
Holds {A} P m = (i : ℕ) → m.map i ≡ true → (i < m.size) × (a : A) × (m.values i ≡ some a) × P a

abbrev pub IsWhole : Block → Type 0
IsWhole b = b.allocated ≡ b.cells 0 + 1

abbrev pub IsAny : Sock → Type 0
IsAny k = Unit

-- Nothing that `destroy_ijvm` frees has been freed before.
pub record NotFreed (marks const code stack : Pointer) : Type 0 where
  pub marks_left : marks ≢ dangling
  pub const_left : const ≢ dangling
  pub code_left : code ≢ dangling
  pub stack_left : stack ≢ dangling

pub record Objects (arrays : MArr Block) (socks : MArr Sock) (marks const code stack : Pointer)
    : Type 0 where
  pub arrays_hold : Holds IsWhole arrays
  pub socks_hold : Holds IsAny socks
  pub blocks : NotFreed marks const code stack

abbrev pub HasObjects : Vm → Type 0
HasObjects s =
    Objects s.arr_mem s.net_conn s.marked_arrays s.cpu.const_block s.cpu.code_block
      s.cpu.stack_block

module _ {A : Type 0} {P : A → Type 0} where
  pub Holds-no_slots : Holds P no_slots
  Holds-no_slots i used = cc

  pub Holds-clear : (m : MArr A) (i : ℕ) → Holds P m → Holds P (clear m i)
  Holds-clear m i h j used = elim (Bool-cases (j == i)) [
    | inl same ↦ ground arith
    | inr other ↦ let kept : m.map j ≡ true = ground arith in ground (arith, h j kept)
  ]

  pub Holds-fill :
      (m : MArr A) (i : ℕ) (a : A) → i < m.size → P a → Holds P m → Holds P (fill m i a)
  Holds-fill m i a lt p h j used = elim (Bool-cases (j == i)) [
    | inl same ↦ (ground arith, a, rw same refl, p)
    | inr other ↦ rw other (h j (ground arith))
  ]

  pub Holds-write :
      (m : MArr A) (i : ℕ) (a : A)
      → P a
      → Holds P m
      → Holds P (record m { values = update m.values i (some a) })
  Holds-write m i a p h j used = elim (Bool-cases (j == i)) [
    | inl same ↦ ((h j used).0, a, rw same refl, p)
    | inr other ↦ rw other (h j used)
  ]
