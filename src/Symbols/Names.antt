-- ===== src/Symbols/Names.antt =====
-- `read_symbol_block` of src/debug_data_loader.c: the bytes of a name.
use integer_java_virtual_mac.Base.{
  ℕ, zero, suc, ◌+◌, ◌*◌, ◌<◌, ◌≡◌, ◌≢◌, refl, ◌∙◌, true, some, [], ◌∷◌, lt→ltb, ne→==, length,
  arith,
}
use integer_java_virtual_mac.Base.Word.{wrap, sub_word, word_mod}
use integer_java_virtual_mac.Machine.{Vm, ok, update, AllocSucceeds, alloc-AllocSucceeds}
use integer_java_virtual_mac.Loader.{File}
use integer_java_virtual_mac.Symbols.{Text, Reader, inc_names, put_char, read_name, c_string}

-- The bytes of a name, and a final 0, before the rest of a file.
abbrev pub put_text : Text → File → File
put_text [] f = 0 ∷ f
put_text (c ∷ t) f = c ∷ put_text t f

abbrev pub IsText : Text → Type 0
IsText [] = Unit
IsText (c ∷ t) = (c ≢ 0) × IsText t

pub length-put_text : (t : Text) (f : File) → length (put_text t f) ≡ length t + 1 + length f
length-put_text [] f = omega arith
length-put_text (c ∷ t) f = omega (arith, length-put_text t f)

-- Memory that has a name at `at`.
abbrev pub HasText : (ℕ → ℕ) → ℕ → Text → Type 0
HasText mem at [] = mem at ≡ 0
HasText mem at (c ∷ t) = (mem at ≡ c) × (c ≢ 0) × HasText mem (at + 1) t

pub HasText-frame :
    (mem mem' : ℕ → ℕ) (t : Text) (at stop : ℕ)
    → ((j : ℕ) → j < stop → mem' j ≡ mem j)
    → at + length t < stop
    → HasText mem at t
    → HasText mem' at t
HasText-frame mem mem' [] at stop same lt e = same at (omega arith) ∙ e
HasText-frame mem mem' (c ∷ t) at stop same lt (e, ne, h) =
    (same at (omega arith) ∙ e, ne, HasText-frame mem mem' t (at + 1) stop same (omega arith) h)

pub c_string-HasText :
    (n : ℕ) (mem : ℕ → ℕ) (at : ℕ) (t : Text)
    → length t < n
    → HasText mem at t
    → c_string n mem at ≡ some t
unfolding c_string
c_string-HasText zero mem at t lt h = absurd (omega arith)
c_string-HasText (suc n) mem at [] lt e = rw e refl
c_string-HasText (suc n) mem at (c ∷ t) lt (e, ne, h) =
    rw (e, ne→== c 0 ne, c_string-HasText n mem (at + 1) t (omega arith) h, e) refl

-- The reader with `k` addresses, `k'` starts and `n` symbols, and `m` bytes of names.
abbrev pub reader : File → ℕ → ℕ → ℕ → ℕ → ℕ → (ℕ → ℕ) → (ℕ → ℕ) → (ℕ → ℕ) → Reader
reader f r k k' n m addr names starts = record {
  file = f;
  bytes_read = r;
  addr_mem_size = k;
  names_mem_size = m;
  names_start_mem_size = k';
  block = record {
    num = n;
    addr_bytes = k * 4;
    addr = addr;
    names_bytes = m * 4;
    names = names;
    starts_bytes = k' * 4;
    names_start = starts;
  };
}

module _ (s : Vm) (h : AllocSucceeds s) (k k' n : ℕ) (addr starts : ℕ → ℕ) where
  -- The last byte of a name, and another one.
  read_name-last :
      (fuel r m : ℕ) (names : ℕ → ℕ) (f : File)
      → (m + 1) * 4 < word_mod
      → r + 1 < word_mod
      → read_name (suc fuel) (reader (0 ∷ f) r k k' n m addr names starts) s
        ≡ ok (true, reader f (r + 1) k k' n (m + 1) addr (update names m 0) starts) s
  unfolding read_name inc_names put_char
  read_name-last fuel r m names f small short =
      let count : wrap (m + 1) ≡ m + 1 = omega arith in
      let size : wrap ((m + 1) * 4) ≡ (m + 1) * 4 = omega arith in
      let index : sub_word (m + 1) 1 ≡ m = omega arith in
      let next : wrap (r + 1) ≡ r + 1 = omega arith in
      rw (alloc-AllocSucceeds s h, count, size, index, lt→ltb m ((m + 1) * 4) (omega arith), next)
        refl

  read_name-byte :
      (c fuel r m : ℕ) (names : ℕ → ℕ) (f : File)
      → c ≢ 0
      → (m + 1) * 4 < word_mod
      → r + 1 < word_mod
      → read_name (suc fuel) (reader (c ∷ f) r k k' n m addr names starts) s
        ≡ read_name fuel (reader f (r + 1) k k' n (m + 1) addr (update names m c) starts) s
  unfolding read_name inc_names put_char
  read_name-byte c fuel r m names f ne small short =
      let count : wrap (m + 1) ≡ m + 1 = omega arith in
      let size : wrap ((m + 1) * 4) ≡ (m + 1) * 4 = omega arith in
      let index : sub_word (m + 1) 1 ≡ m = omega arith in
      let next : wrap (r + 1) ≡ r + 1 = omega arith in
      rw
        (
          alloc-AllocSucceeds s h,
          count,
          size,
          index,
          lt→ltb m ((m + 1) * 4) (omega arith),
          next,
          ne→== c 0 ne,
        )
        refl

  -- A name with its final 0 is read, to the end of the names before it.
  pub read_name-put_text :
      (t : Text) (fuel r m : ℕ) (names : ℕ → ℕ) (f : File)
      → IsText t
      → (m + length t + 1) * 4 < word_mod
      → r + length t + 1 < word_mod
      → length t < fuel
      → (mem : ℕ → ℕ) × (read_name fuel (reader (put_text t f) r k k' n m addr names starts) s
          ≡ ok (true, reader f (r + length t + 1) k k' n (m + length t + 1) addr mem starts) s)
        × ((j : ℕ) → j < m → mem j ≡ names j)
        × HasText mem m t
  read_name-put_text [] zero r m names f text small short lt = absurd (omega arith)
  read_name-put_text (c ∷ t) zero r m names f text small short lt = absurd (omega arith)
  read_name-put_text [] (suc fuel) r m names f text small short lt =
      let e : r + 1 ≡ r + 0 + 1 = omega arith in
      let e' : m + 1 ≡ m + 0 + 1 = omega arith in
      (
        update names m 0,
        rw⁻¹ (e, e') (read_name-last fuel r m names f (omega arith) (omega arith)),
        λ j lt. ground arith,
        ground arith,
      )
  read_name-put_text (c ∷ t) (suc fuel) r m names f (ne, text) small short lt =
      let (mem, e, same, has) =
        read_name-put_text t fuel (r + 1) (m + 1) (update names m c) f text (omega arith)
          (omega arith) (omega arith) in
      let sum : r + 1 + length t + 1 ≡ r + suc (length t) + 1 = omega arith in
      let sum' : m + 1 + length t + 1 ≡ m + suc (length t) + 1 = omega arith in
      (
        mem,
        read_name-byte c fuel r m names (put_text t f) ne (omega arith) (omega arith)
            ∙ rw⁻¹ (sum, sum') e,
        λ j lt. same j (omega arith) ∙ ground arith,
        (same m (omega arith) ∙ ground arith, ne, has),
      )
