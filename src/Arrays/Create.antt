-- ===== src/Arrays/Create.antt =====
-- `arr_create` of src/array.c: a new array, in a slot that was free.
use integer_java_virtual_mac.Base.{ℕ, ◌<◌, ◌≡◌, ◌≢◌, false}
use integer_java_virtual_mac.Refs.{ref_to_index}
use integer_java_virtual_mac.Machine.{Error, Vm, ok, too_many_arrays}
use integer_java_virtual_mac.Marr.{arr_mem}
use integer_java_virtual_mac.Claim.Free.{Full}
use integer_java_virtual_mac.Arrays.Store.{renewed}
use integer_java_virtual_mac.Arrays.Access.{Points}
use integer_java_virtual_mac.Arrays.{arr_get, new_block}

-- All of the first 2 ^ 20 slots are in use: the next index has no reference.
abbrev pub NoReference : Vm → Error → Vm → Type 0
NoReference s e t =
    (e ≡ too_many_arrays) × (s.arr_mem.size ≡ 0x10_0000) × Full s.arr_mem.map 0x10_0000 0

-- What a creation of `n` elements that returned `r` leaves.
pub record IsCreated (s : Vm) (n r : ℕ) (t : Vm) : Type 0 where
  pub points : Points t r (new_block n)
  pub zeros : (i : ℕ) → i < n → arr_get r i t ≡ ok 0 t
  pub fresh : ref_to_index r < s.arr_mem.size → s.arr_mem.map (ref_to_index r) ≡ false
  pub others :
      (j : ℕ)
      → j < s.arr_mem.size
      → j ≢ ref_to_index r
      → (t.arr_mem.map j ≡ s.arr_mem.map j) × (t.arr_mem.values j ≡ s.arr_mem.values j)
  pub only_arrays : (k : ℕ) × (t ≡ renewed s t.arr_mem k)
