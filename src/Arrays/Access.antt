-- ===== src/Arrays/Access.antt =====
-- `arr_get` and `arr_set` of src/array.c: reads and writes of elements by a reference.
use integer_java_virtual_mac.Base.{
  ℕ, ◌+◌, ◌<◌, ◌≡◌, refl, true, not, ◌||◌, some, inl, inr, Bool-cases, ltb, lt→ltb, if◌then◌else◌,
  ◌==◌, ◌&&◌, ap, arith,
}
use integer_java_virtual_mac.Base.Word.{wrap, slt}
use integer_java_virtual_mac.Refs.{arr_tag, ref_to_index, is_ref}
use integer_java_virtual_mac.Machine.{Vm, Block, outside_array, ok, exit, update}
use integer_java_virtual_mac.Collector.{deref, read_cell}
use integer_java_virtual_mac.Collector.Mark.{marr_get_element-ok}
use integer_java_virtual_mac.Arrays.{block_of, arr_check_bounds, arr_get, write_cell, arr_set}

-- A reference `r` to an array in use that holds block `b`.
pub record Points (s : Vm) (r : ℕ) (b : Block) : Type 0 where
  pub format : is_ref arr_tag r ≡ true
  pub in_range : ref_to_index r < s.arr_mem.size
  pub in_use : s.arr_mem.map (ref_to_index r) ≡ true
  pub held : s.arr_mem.values (ref_to_index r) ≡ some b
  pub allocated : b.allocated ≡ b.cells 0 + 1
  pub count_int : b.cells 0 < 0x8000_0000

-- The bounds test passes exactly for the indices below the count, whatever the sign of the index.
module _ (s : Vm) (r : ℕ) (b : Block) (p : Points s r b) where
  outside_test :
      (i : ℕ)
      → i < 0x1_0000_0000
      → (slt (wrap (i + 1)) 1 || ltb (b.cells 0) (wrap (i + 1))) ≡ not (ltb i (b.cells 0))
  outside_test i w = ground (arith, p.count_int)

  arr_check_bounds_lem :
      (i : ℕ)
      → i < 0x1_0000_0000
      → arr_check_bounds r i s ≡ (if ltb i (b.cells 0) then ok tt s else exit outside_array s)
  unfolding arr_check_bounds block_of read_cell
  arr_check_bounds_lem i w =
      rw
        (
          p.format,
          marr_get_element-ok s (ref_to_index r) p.in_range p.in_use,
          p.held,
          lt→ltb 0 b.allocated (omega (arith, p.allocated)),
          outside_test i w,
        )
        (ground arith)

  -- `arr_get` by a reference to an array in use, at any index word, returns the element if the
  -- index is below the count of the array, and gives the message about an access outside an array
  -- else. It never reads outside the block.
  pub arr_get_lem :
      (i : ℕ)
      → i < 0x1_0000_0000
      → arr_get r i s ≡ (if ltb i (b.cells 0) then ok (b.cells (i + 1)) s else exit outside_array s)
  unfolding arr_get deref read_cell
  arr_get_lem i w = rw (arr_check_bounds_lem i w) (
      ground (
        arith,
        marr_get_element-ok s (ref_to_index r) p.in_range p.in_use,
        p.held,
        p.allocated,
        p.count_int,
      ))

-- Block `b` of slot `i` with cell `k` written anew.
abbrev pub stored : Vm → ℕ → Block → ℕ → ℕ → Vm
stored s slot b k v = record s {
  arr_mem = record (s.arr_mem) {
    values = update s.arr_mem.values slot (some (record b { cells = update b.cells k v }));
  };
}

module _ (s : Vm) (r : ℕ) (b : Block) (p : Points s r b) where
  pub arr_set_lem :
      (i v : ℕ)
      → i < 0x1_0000_0000
      → arr_set r i v s ≡ (
          if ltb i (b.cells 0)
          then ok tt (stored s (ref_to_index r) b (i + 1) v)
          else exit outside_array s)
  unfolding arr_set deref write_cell
  arr_set_lem i v w = rw (arr_check_bounds_lem s r b p i w) (
      ground (
        arith,
        marr_get_element-ok s (ref_to_index r) p.in_range p.in_use,
        p.held,
        p.allocated,
        p.count_int,
      ))

stored-Points :
    (s : Vm) (r r' : ℕ) (b b' : Block) (i v : ℕ)
    → Points s r b
    → Points s r' b'
    → Points (stored s (ref_to_index r) b (i + 1) v) r' (
        if ref_to_index r' == ref_to_index r
        then record b { cells = update b.cells (i + 1) v }
        else b')
stored-Points s r r' b b' i v p p' = elim (Bool-cases (ref_to_index r' == ref_to_index r)) [
  | inl same ↦ rw same (record {
    format = p'.format;
    in_range = p'.in_range;
    in_use = p'.in_use;
    held = rw same refl;
    allocated = ground (arith, p.allocated);
    count_int = ground (arith, p.count_int);
  })
  | inr other ↦ rw other (record {
    format = p'.format;
    in_range = p'.in_range;
    in_use = p'.in_use;
    held = rw other p'.held;
    allocated = p'.allocated;
    count_int = p'.count_int;
  })
]

same_block :
    (s : Vm) (r r' : ℕ) (b b' : Block)
    → Points s r b
    → Points s r' b'
    → ref_to_index r' ≡ ref_to_index r
    → b' ≡ b
same_block s r r' b b' p p' e = cc (p'.held, ap s.arr_mem.values e, p.held)

-- After a write by a reference to an array in use, at an index below the count, a read by any such
-- reference at any index word gives what it gave before, and the written word at the written index
-- if the slots are the same. The bounds of the reads do not change.
pub arr_set-arr_get :
    (s : Vm) (r r' : ℕ) (b b' : Block) (i j v : ℕ) {t : Vm}
    → Points s r b
    → Points s r' b'
    → i < b.cells 0
    → j < 0x1_0000_0000
    → arr_set r i v s ≡ ok tt t
    → arr_get r' j t ≡ (
        if ltb j (b'.cells 0)
        then ok (if (ref_to_index r' == ref_to_index r) && (j == i) then v else b'.cells (j + 1)) t
        else exit outside_array t)
arr_set-arr_get s r r' b b' i j v {t} p p' inside w ran =
    let written : arr_set r i v s ≡ ok tt (stored s (ref_to_index r) b (i + 1) v) =
      rw (arr_set_lem s r b p i v (omega (arith, p.count_int)), lt→ltb i (b.cells 0) inside) in
    let e : t ≡ stored s (ref_to_index r) b (i + 1) v = cc in
    rw (e, arr_get_lem _ r' _ (stored-Points s r r' b b' i v p p') j w)
      (elim (Bool-cases (ref_to_index r' == ref_to_index r)) [
        | inl same ↦ ground (arith, same_block s r r' b b' p p')
        | inr other ↦ ground arith
      ])
