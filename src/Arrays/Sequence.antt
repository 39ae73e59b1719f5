-- ===== src/Arrays/Sequence.antt =====
-- Sequences of reads and writes of elements, src/array.c, and the store that they work on: a map
-- from slots and indices to words.
use integer_java_virtual_mac.Base.{
  ℕ, ◌+◌, ◌&&◌, Option, none, some, List, [], ◌∷◌, ◌==◌, ltb, if◌then◌else◌,
}
use mathlib.Core.Option
use integer_java_virtual_mac.Base.Word.{wrap}
use integer_java_virtual_mac.Refs.{arr_tag, ref_to_index, is_ref}
use integer_java_virtual_mac.Machine.{Block, Vm, M, pure, ◌>>=◌, ◌>>◌}
use integer_java_virtual_mac.Arrays.{arr_get, arr_set}

-- A read or a write, by a reference and an index.
pub data Access : Type 0 where
  read : ℕ → ℕ → Access
  write : ℕ → ℕ → ℕ → Access

-- What the code does for an access, and for a sequence of them. A write has no result, here 0.
unfoldable pub access : Access → M ℕ
access (read r i) = arr_get r i
access (write r i v) = arr_set r i v >> pure 0

unfoldable pub access_all : List Access → M (List ℕ)
access_all [] = pure []
access_all (a ∷ rest) = do v ← access a; vs ← access_all rest; pure (v ∷ vs)

-- The elements: no slot without an array has any, and none lies behind the last one.
abbrev pub Store : Type 0
Store = ℕ → ℕ → Option ℕ

abbrev pub element_of : Option Block → ℕ → Option ℕ
element_of none i = none
element_of (some b) i = if ltb i (b.cells 0) then some (b.cells (i + 1)) else none

abbrev pub store_of : Vm → Store
store_of s j i = if s.arr_mem.map j then element_of (s.arr_mem.values j) i else none

abbrev pub lookup : Store → ℕ → ℕ → Option ℕ
lookup m r i = if is_ref arr_tag r then m (ref_to_index r) (wrap i) else none

-- Another word for one element.
abbrev pub put : Store → ℕ → ℕ → ℕ → Store
put m j i v k l = if k == j && (l == i) then some v else m k l

-- What an access means: its result and the store behind it, or `none` where the program gives up.
abbrev pub meaning : Access → Store → Option (ℕ × Store)
meaning (read r i) m = Option.map (λ v. (v, m)) (lookup m r i)
meaning (write r i v) m = Option.map (λ _. (0, put m (ref_to_index r) (wrap i) v)) (lookup m r i)

abbrev pub meaning_then :
    Option (ℕ × Store) → (Store → Option (List ℕ × Store)) → Option (List ℕ × Store)
meaning_then none rest = none
meaning_then (some (v, m)) rest = Option.map (λ (vs, m'). (v ∷ vs, m')) (rest m)

abbrev pub meaning_all : List Access → Store → Option (List ℕ × Store)
meaning_all [] m = some ([], m)
meaning_all (a ∷ rest) m = meaning_then (meaning a m) (meaning_all rest)
