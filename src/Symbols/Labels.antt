-- ===== src/Symbols/Labels.antt =====
-- `read_symbol_block` of src/debug_data_loader.c: one symbol of a well-formed block.
use integer_java_virtual_mac.Base.{
  ℕ, suc, ◌+◌, ◌*◌, ◌≤◌, ◌<◌, ◌≡◌, refl, true, List, [], ◌∷◌, leb, le→leb, length, arith,
}
use integer_java_virtual_mac.Base.Word.{wrap, word_mod}
use integer_java_virtual_mac.Machine.{Vm, ok, update, AllocSucceeds, alloc-AllocSucceeds}
use integer_java_virtual_mac.Loader.{File}
use integer_java_virtual_mac.Loader.Binary.{put_word, read_uint32-put_word, swap_uint32-raw}
use integer_java_virtual_mac.Symbols.{
  Text, inc_addr, inc_names_start, put_addr, put_start, read_name_to_end, read_symbol,
}
use integer_java_virtual_mac.Symbols.Names.{
  put_text, IsText, length-put_text, HasText, reader, read_name-put_text,
}

pub record Label : Type 0 where
  pub at : ℕ
  pub name : Text

-- The symbols of a block, before the rest of a file, and their size in bytes.
abbrev pub put_labels : List Label → File → File
put_labels [] f = f
put_labels (l ∷ ls) f = put_word l.at (put_text l.name (put_labels ls f))

abbrev pub labels_size : List Label → ℕ
labels_size [] = 0
labels_size (l ∷ ls) = 4 + length l.name + 1 + labels_size ls

abbrev pub AreLabels : List Label → Type 0
AreLabels [] = Unit
AreLabels (l ∷ ls) = (l.at < word_mod) × IsText l.name × AreLabels ls

-- The symbol number `i`, whose name lies below `m`, and the symbols from number `i` on.
abbrev pub Entry : (ℕ → ℕ) → (ℕ → ℕ) → (ℕ → ℕ) → ℕ → ℕ → Label → Type 0
Entry addr names starts m i l =
    (addr i ≡ l.at) × HasText names (starts i) l.name × (starts i + length l.name < m)

abbrev pub Entries : (ℕ → ℕ) → (ℕ → ℕ) → (ℕ → ℕ) → ℕ → ℕ → List Label → Type 0
Entries addr names starts m i [] = Unit
Entries addr names starts m i (l ∷ ls) =
    Entry addr names starts m i l × Entries addr names starts m (i + 1) ls

module _ (s : Vm) (h : AllocSucceeds s) where
  -- A symbol but for its name.
  read_symbol-name :
      (w r r' k m m' : ℕ) (addr names starts mem : ℕ → ℕ) (f g : File)
      → w < word_mod
      → (k + 1) * 4 < word_mod
      → r + 4 < word_mod
      → read_name_to_end
          (reader g (r + 4) (k + 1) (k + 1) k m (update addr k w) names (update starts k m))
          s
        ≡ ok (true, reader f r' (k + 1) (k + 1) k m' (update addr k w) mem (update starts k m)) s
      → read_symbol (reader (put_word w g) r k k k m addr names starts) s
        ≡ ok
            (true, reader f r' (k + 1) (k + 1) (k + 1) m' (update addr k w) mem (update starts k m))
            s
  unfolding read_symbol inc_addr put_addr inc_names_start put_start
  read_symbol-name w r r' k m m' addr names starts mem f g word small short e =
      let count : wrap (k + 1) ≡ k + 1 = omega arith in
      let size : wrap ((k + 1) * 4) ≡ (k + 1) * 4 = omega arith in
      let inside : leb (k * 4 + 4) ((k + 1) * 4) ≡ true = le→leb _ _ (omega arith) in
      let next : wrap (r + 4) ≡ r + 4 = omega arith in
      rw
        (
          alloc-AllocSucceeds s h,
          read_uint32-put_word w g,
          count,
          size,
          swap_uint32-raw w word,
          inside,
          alloc-AllocSucceeds s h,
          count,
          size,
          inside,
          next,
          e,
        )
        refl

  pub read_symbol-put_word :
      (l : Label) (r k m : ℕ) (addr names starts : ℕ → ℕ) (f : File)
      → l.at < word_mod
      → IsText l.name
      → k ≤ m
      → (m + length l.name + 1) * 4 < word_mod
      → r + length l.name + 5 < word_mod
      → (mem : ℕ → ℕ) × (read_symbol
            (reader (put_word l.at (put_text l.name f)) r k k k m addr names starts)
            s
          ≡ ok
              (
                true,
                reader f
                    (r + 4 + length l.name + 1)
                    (k + 1)
                    (k + 1)
                    (k + 1)
                    (m + length l.name + 1)
                    (update addr k l.at)
                    mem
                    (update starts k m),
              )
              s)
        × ((j : ℕ) → j < m → mem j ≡ names j)
        × HasText mem m l.name
  unfolding read_name_to_end
  read_symbol-put_word l r k m addr names starts f word text le small short =
      let fuel = suc (length (put_text l.name f) + length s.heap_answers) in
      let (mem, e, same, has) =
        read_name-put_text s h (k + 1) (k + 1) k (update addr k l.at) (update starts k m) l.name
          fuel (r + 4) m names f text small (omega arith)
          (omega (arith, length-put_text l.name f)) in
      (
        mem,
        read_symbol-name l.at r (r + 4 + length l.name + 1) k m (m + length l.name + 1) addr names
            starts mem f (put_text l.name f) word (omega arith) (omega arith) e,
        same,
        has,
      )
