-- ===== src/Symbols/Cut.antt =====
-- `read_symbol_block` of src/debug_data_loader.c on a name that the end of the file cuts off.
use integer_java_virtual_mac.Base.{
  ℕ, zero, suc, ◌+◌, ◌*◌, ◌≢◌, ◌≡◌, ◌<◌, refl, true, lt→ltb, arith, Bool-cases, inl, inr, [], ◌∷◌,
  ltb, ne→==,
}
use integer_java_virtual_mac.Base.Word.{wrap, sub_word}
use integer_java_virtual_mac.Machine.{
  Vm, AllocSucceeds, alloc-AllocSucceeds, out_of_fuel, Lasts, lasts_fault, lasts_fuel,
}
use integer_java_virtual_mac.Loader.{File}
use integer_java_virtual_mac.Symbols.{Reader, inc_names, put_char, getc, rest_of_file, read_name}

-- No byte of the file is 0.
abbrev pub HasNoZero : File → Type 0
HasNoZero [] = Unit
HasNoZero (c ∷ f) = (c ≢ 0) × HasNoZero f

getc-HasNoZero : (f : File) → HasNoZero f → getc f ≢ 0
getc-HasNoZero [] h = λ e. cc
getc-HasNoZero (c ∷ f) (ne, h) = ne

rest_of_file-HasNoZero : (f : File) → HasNoZero f → HasNoZero (rest_of_file f)
rest_of_file-HasNoZero [] h = tt
rest_of_file-HasNoZero (c ∷ f) (ne, h) = h

-- The loop never returns, with whatever fuel.
read_name-never :
    (fuel : ℕ) (t : Reader) (s : Vm)
    → AllocSucceeds s
    → HasNoZero t.file
    → Lasts (read_name fuel t s)
unfolding read_name inc_names put_char
read_name-never zero t s h none_left = lasts_fuel
read_name-never (suc fuel) t s h none_left =
    let m = wrap (t.names_mem_size + 1) in
    elim (Bool-cases (ltb (sub_word m 1) (wrap (m * 4)))) [
      | inl inside ↦
          rw
            (
              alloc-AllocSucceeds s h,
              inside,
              ne→== (getc t.file) 0 (getc-HasNoZero t.file none_left),
            )
            (read_name-never fuel _ s h (rest_of_file-HasNoZero t.file none_left))
      | inr outside ↦ rw (alloc-AllocSucceeds s h, outside) lasts_fault
    ]

-- As long as the names have fewer than 2 ^ 30 places, another round goes on.
read_name-rounds :
    (fuel : ℕ) (t : Reader) (s : Vm)
    → AllocSucceeds s
    → HasNoZero t.file
    → t.names_mem_size + fuel < 0x4000_0000
    → read_name fuel t s ≡ out_of_fuel
unfolding read_name inc_names put_char
read_name-rounds zero t s h none_left small = refl
read_name-rounds (suc fuel) t s h none_left small =
    let m = wrap (t.names_mem_size + 1) in
    let next : m ≡ t.names_mem_size + 1 = omega arith in
    let inside : ltb (sub_word m 1) (wrap (m * 4)) ≡ true = lt→ltb _ _ (omega arith) in
    rw (alloc-AllocSucceeds s h, inside, ne→== (getc t.file) 0 (getc-HasNoZero t.file none_left))
      (read_name-rounds fuel _ s h (rest_of_file-HasNoZero t.file none_left) (omega arith))

-- A name whose 0 is missing up to the end of the file, as long as no allocation fails: the loop
-- goes on through any number of rounds that leaves the names below 2 ^ 30 places, without a fault,
-- a message or a result, and it does not return with any fuel beyond that either.
pub read_name-Lasts :
    (rounds fuel : ℕ) (t : Reader) (s : Vm)
    → AllocSucceeds s
    → HasNoZero t.file
    → t.names_mem_size + rounds < 0x4000_0000
    → (read_name rounds t s ≡ out_of_fuel) × Lasts (read_name fuel t s)
read_name-Lasts rounds fuel t s h none_left small =
    (read_name-rounds rounds t s h none_left small, read_name-never fuel t s h none_left)
