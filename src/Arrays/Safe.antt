-- ===== src/Arrays/Safe.antt =====
-- `arr_get` and `arr_set` of src/array.c with any words at all as reference and index.
use integer_java_virtual_mac.Base.{
  ℕ, ◌+◌, ◌<◌, ◌≡◌, refl, true, false, ◌||◌, some, ◌⊎◌, inl, inr, Bool-cases, ltb, leb, lt→ltb,
  ◌==◌, arith,
}
use integer_java_virtual_mac.Base.Word.{wrap, slt}
use integer_java_virtual_mac.Refs.{arr_tag, ref_to_index, is_ref}
use integer_java_virtual_mac.Machine.{
  Vm, Block, Error, bad_array_reference, bad_element, unclaimed_element, outside_array, ok, exit,
  update, Ends, returns, exits,
}
use integer_java_virtual_mac.Marr.{marr_get_element}
use integer_java_virtual_mac.Marr.Slots.{HasObjects, IsWhole, Holds-write}
use integer_java_virtual_mac.Collector.{deref, read_cell}
use integer_java_virtual_mac.Collector.Mark.{marr_get_element-ok}
use integer_java_virtual_mac.Arrays.{block_of, arr_check_bounds, arr_get, write_cell, arr_set}

-- The access of element `i` by reference `r` lies in a block `b` that a slot in use holds, behind
-- the count.
record IsInside (s : Vm) (r i : ℕ) (b : Block) : Type 0 where
  in_range : ref_to_index r < s.arr_mem.size
  in_use : s.arr_mem.map (ref_to_index r) ≡ true
  held : s.arr_mem.values (ref_to_index r) ≡ some b
  whole : IsWhole b
  behind_count : 0 < wrap (i + 1)
  in_block : wrap (i + 1) < b.allocated

module _ (r i : ℕ) (s : Vm) (h : HasObjects s) where
  -- The test passes exactly then, and changes nothing.
  arr_check_bounds-cases :
      ((e : Error) × (arr_check_bounds r i s ≡ exit e s))
      ⊎ ((b : Block) × IsInside s r i b × (arr_check_bounds r i s ≡ ok tt s))
  unfolding arr_check_bounds marr_get_element block_of read_cell
  arr_check_bounds-cases =
      let j = ref_to_index r in
      elim (Bool-cases (is_ref arr_tag r)) [
        | inr other ↦ inl (bad_array_reference, rw other refl)
        | inl ref ↦ elim (Bool-cases (leb s.arr_mem.size j)) [
          | inl out ↦ inl (bad_element, rw (ref, out) refl)
          | inr inside ↦ elim (Bool-cases (s.arr_mem.map j)) [
            | inr free ↦ inl (unclaimed_element, rw (ref, inside, free) refl)
            | inl used ↦
                let (lt, b, held, whole) = h.arrays_hold j used in
                let filled : ltb 0 b.allocated ≡ true = ground arith in
                elim (Bool-cases (slt (wrap (i + 1)) 1 || ltb (b.cells 0) (wrap (i + 1)))) [
                  | inl outside ↦
                      inl (outside_array, rw (ref, inside, used, held, filled, outside) refl)
                  | inr fits ↦ inr (
                    b,
                    record {
                      in_range = lt;
                      in_use = used;
                      held = held;
                      whole = whole;
                      behind_count = ground arith;
                      in_block = ground arith;
                    },
                    rw (ref, inside, used, held, filled, fits) refl,
                  )
                ]
          ]
        ]
      ]

  -- A write behind the count of a block leaves the invariant.
  HasObjects-written :
      (b : Block) (v : ℕ)
      → IsInside s r i b
      → HasObjects (record s {
        arr_mem = record (s.arr_mem) {
          values =
              update s.arr_mem.values
                (ref_to_index r)
                (some (record b { cells = update b.cells (wrap (i + 1)) v }));
        };
      })
  HasObjects-written b v k =
      let count : (0 == wrap (i + 1)) ≡ false = ground (arith, k.behind_count) in
      record {
        arrays_hold = Holds-write s.arr_mem (ref_to_index r) _ (rw count k.whole) h.arrays_hold;
        socks_hold = h.socks_hold;
        blocks = h.blocks;
      }

  -- From a machine whose slots in use hold their blocks, `arr_get` and `arr_set` with any words at
  -- all as reference, index and value never touch memory outside a block and never follow a NULL
  -- pointer: each returns or gives up with a message, `arr_get` with the machine as it was, and
  -- `arr_set` with a machine whose slots in use hold their blocks again.
  pub arr_get-arr_set-Ends :
      (v : ℕ)
      → Ends (λ x t. t ≡ s) (λ e t. t ≡ s) (arr_get r i s)
        × Ends (λ x t. HasObjects t) (λ e t. t ≡ s) (arr_set r i v s)
  unfolding arr_get arr_set deref read_cell write_cell
  arr_get-arr_set-Ends v = elim arr_check_bounds-cases [
    | inl (e, refused) ↦ (rw refused (exits refl), rw refused (exits refl))
    | inr (b, k, passed) ↦
        let got = marr_get_element-ok s (ref_to_index r) k.in_range k.in_use in
        let fits = lt→ltb (wrap (i + 1)) b.allocated k.in_block in
        (
          rw (passed, got, k.held, fits) (returns refl),
          rw (passed, got, k.held, fits) (returns (HasObjects-written b v k)),
        )
  ]
