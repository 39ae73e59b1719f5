-- ===== src/Symbols/Load.antt =====
-- `load_debug_data` of src/debug_data_loader.c on a well-formed binary.
use mathlib.Core.Path.{subst}
use integer_java_virtual_mac.Base.{
  ℕ, suc, ◌+◌, ◌-◌, ◌*◌, ◌≤◌, ◌<◌, ◌≡◌, ◌≢◌, refl, ap, ◌∙◌, true, false, ◌==◌, Option, some, List,
  [], ◌∷◌, ◌++◌, le→leb, ne→==, length, drop, drop-append, arith,
}
use integer_java_virtual_mac.Base.Word.{word_mod}
use integer_java_virtual_mac.Machine.{Vm, ok, AllocSucceeds}
use integer_java_virtual_mac.Loader.{File}
use integer_java_virtual_mac.Loader.Binary.{
  put_word, put_words, binary, read_uint32-put_word, swap_uint32-raw,
}
use integer_java_virtual_mac.Symbols.{
  SymbolBlock, DebugData, get_block_size, skip_sized, skip_block, load_blocks, read_symbols,
  read_sized, read_symbol_block, no_symbols, init_debug_data, load_symbols, load_debug_data, Notice,
  no_debug_symbols, symbols_loaded, notice, name_at,
}
use integer_java_virtual_mac.Symbols.Names.{length-put_text, c_string-HasText, reader}
use integer_java_virtual_mac.Symbols.Labels.{Label, put_labels, labels_size, AreLabels, Entries}
use integer_java_virtual_mac.Symbols.Blocks.{read_symbols-put_labels}

-- A block of symbols, before the rest of a file.
abbrev pub put_block : ℕ → List Label → File → File
put_block o ls f = put_word o (put_word (labels_size ls) (put_labels ls f))

-- From number `i` on the symbols of the block are `ls`, and no others: each has its address, which
-- lies in the memory for addresses, and its name.
abbrev pub HasLabels : SymbolBlock → ℕ → List Label → Type 0
HasLabels b i [] = b.num ≡ i
HasLabels b i (l ∷ ls) =
    (i * 4 + 4 ≤ b.addr_bytes)
    × (b.addr i ≡ l.at)
    × (name_at b i ≡ some l.name)
    × HasLabels b (i + 1) ls

Entries-HasLabels :
    (ls : List Label) (i k m : ℕ) (addr names starts : ℕ → ℕ)
    → Entries addr names starts m i ls
    → i + length ls ≡ k
    → HasLabels (reader [] 0 k k k m addr names starts).block i ls
Entries-HasLabels [] i k m addr names starts h e = omega arith
Entries-HasLabels (l ∷ ls) i k m addr names starts ((at, text, inside), h) e = (
  omega arith,
  at,
  rw (le→leb (i * 4 + 4) (k * 4) (omega arith), le→leb (starts i) (m * 4) (omega arith))
      (c_string-HasText (m * 4 - starts i) names (starts i) l.name (omega arith) text),
  Entries-HasLabels ls (i + 1) k m addr names starts h (omega arith),
)

length-put_labels : (ls : List Label) (f : File) → length ls ≤ length (put_labels ls f)
length-put_labels [] f = omega arith
length-put_labels (l ∷ ls) f =
    omega (arith, length-put_labels ls f, length-put_text l.name (put_labels ls f))

get_block_size-put_word :
    (o n : ℕ) (f : File) → n < word_mod → get_block_size (put_word o (put_word n f)) ≡ (some n, f)
unfolding get_block_size
get_block_size-put_word o n f h =
    rw (get_block_size, read_uint32-put_word n f, swap_uint32-raw n h) refl

read_sized-read_symbols :
    (file f : File) (b : SymbolBlock) (s : Vm) (n k m : ℕ) (addr names starts : ℕ → ℕ)
    → n ≢ 0
    → read_symbols (suc (length file)) n (reader file 0 0 0 0 0 b.addr b.names b.names_start) s
      ≡ ok (true, reader f n k k k m addr names starts) s
    → read_sized (some n, file) (no_symbols b) s
      ≡ ok (true, f, (reader [] 0 k k k m addr names starts).block) s
unfolding read_sized
read_sized-read_symbols file f b s n k m addr names starts ne e = rw (ne→== n 0 ne, e) refl

-- The symbols of a well-formed block are read into one without symbols.
read_sized-put_labels :
    (ls : List Label) (f : File) (b : SymbolBlock) (s : Vm)
    → AllocSucceeds s
    → AreLabels ls
    → labels_size ls * 4 < word_mod
    → (b' : SymbolBlock) × (read_sized (some (labels_size ls), put_labels ls f) (no_symbols b) s
        ≡ ok (true, f, b') s)
      × HasLabels b' 0 ls
unfolding read_sized
read_sized-put_labels [] f b s h labels small = (no_symbols b, refl, refl)
read_sized-put_labels (l ∷ ls) f b s h labels small =
    let size = labels_size (l ∷ ls) in
    let file = put_labels (l ∷ ls) f in
    let t =
      read_symbols-put_labels s h f (l ∷ ls) (suc (length file)) 0 0 0 b.addr b.names b.names_start
        labels (omega arith) (omega arith) (omega arith)
        (omega (arith, length-put_labels (l ∷ ls) f)) in
    let total : 0 + size ≡ size = omega arith in
    let k = 0 + length (l ∷ ls) in
    let full = (reader [] 0 k k k t.bytes t.addr' t.names' t.starts').block in
    (
      full,
      subst (λ (n : ℕ). read_sized (some n, file) (no_symbols b) s ≡ ok (true, f, full) s) total
          (read_sized-read_symbols file f b s (0 + size) k t.bytes t.addr' t.names' t.starts'
            (omega arith) t.result),
      Entries-HasLabels (l ∷ ls) 0 k t.bytes t.addr' t.names' t.starts' t.entries refl,
    )

drop-put_words : (ws : List ℕ) (f : File) → drop (4 * length ws) (put_words ws f) ≡ f
drop-put_words [] f = refl
drop-put_words (w ∷ ws) f =
    let e : 4 * suc (length ws) ≡ suc (suc (suc (suc (4 * length ws)))) = omega arith in
    rw e (drop-put_words ws f)

skip_block-put_word :
    (o n : ℕ) (f : File) → n < word_mod → skip_block (put_word o (put_word n f)) ≡ (true, drop n f)
unfolding skip_block
skip_block-put_word o n f h = ap skip_sized (get_block_size-put_word o n f h)

read_symbol_block-put_block :
    (ls : List Label) (o : ℕ) (f : File) (b : SymbolBlock) (s : Vm)
    → AllocSucceeds s
    → AreLabels ls
    → labels_size ls * 4 < word_mod
    → (b' : SymbolBlock) × (read_symbol_block (put_block o ls f) (no_symbols b) s
        ≡ ok (true, f, b') s)
      × HasLabels b' 0 ls
unfolding read_symbol_block
read_symbol_block-put_block ls o f b s h labels small =
    let (b', e, has) = read_sized-put_labels ls f b s h labels small in
    let size = get_block_size-put_word o (labels_size ls) (put_labels ls f) (omega arith) in
    (b', ap (λ (p : Option ℕ × File). read_sized p (no_symbols b) s) size ∙ e, has)

pub HasLabels-num :
    (ls : List Label) (b : SymbolBlock) (i : ℕ) → HasLabels b i ls → b.num ≡ i + length ls
HasLabels-num [] b i e = omega arith
HasLabels-num (l ∷ ls) b i (_, _, _, h) = omega (arith, HasLabels-num ls b (i + 1) h)

abbrev pub notice_for : List Label → Notice
notice_for [] = no_debug_symbols
notice_for (_ ∷ _) = symbols_loaded

notice-HasLabels :
    (g : DebugData) (ls : List Label) → HasLabels g.func_label 0 ls → notice g ≡ notice_for ls
notice-HasLabels g [] has = rw (HasLabels-num [] g.func_label 0 has) refl
notice-HasLabels g (l ∷ ls) has =
    let num = HasLabels-num (l ∷ ls) g.func_label 0 has in
    let some_label : (g.func_label.num == 0) ≡ false = ne→== _ _ (omega arith) in rw some_label refl

-- A binary as `load_bin` loads it, with labels of functions and of sections behind its code, where
-- each label is a word and a name without a 0, and each block of labels takes less than 2 ^ 30
-- bytes: where no allocation fails its labels are loaded, each with its address and its name. The
-- origins may be any numbers, what follows is not read, and the machine does not change. What is
-- printed is that labels have been loaded or, where there are none of functions, that there are
-- none.
pub load_debug_data-binary :
    (s : Vm) (g : DebugData) (o₁ o₂ o₃ o₄ : ℕ) (ws bs : List ℕ) (funcs secs : List Label) (f : File)
    → AllocSucceeds s
    → 4 * length ws < word_mod
    → length bs < word_mod
    → AreLabels funcs
    → labels_size funcs * 4 < word_mod
    → AreLabels secs
    → labels_size secs * 4 < word_mod
    → (loaded : DebugData) × (load_debug_data
          (some (binary o₁ o₂ ws bs (put_block o₃ funcs (put_block o₄ secs f))))
          (init_debug_data g)
          s
        ≡ ok (true, loaded, some (notice_for funcs)) s)
      × HasLabels loaded.func_label 0 funcs
      × HasLabels loaded.sec_label 0 secs
unfolding load_debug_data load_symbols load_blocks init_debug_data
load_debug_data-binary s g o₁ o₂ o₃ o₄ ws bs funcs secs f h consts code hf small_f hs small_s =
    let second = put_block o₄ secs f in
    let first = put_block o₃ funcs second in
    let (b, e, has) = read_symbol_block-put_block funcs o₃ second g.func_label s h hf small_f in
    let (c, e', has') = read_symbol_block-put_block secs o₄ f g.sec_label s h hs small_s in
    let tail = put_word o₂ (put_word (length bs) (bs ++ first)) in
    (
      record { func_label = b; sec_label = c },
      rw
          (
            skip_block-put_word o₁ (4 * length ws) (put_words ws tail) consts,
            drop-put_words ws tail,
            skip_block-put_word o₂ (length bs) (bs ++ first) code,
            drop-append bs first,
            e,
            e',
            notice-HasLabels (record { func_label = b; sec_label = c }) funcs has,
          )
          refl,
      has,
      has',
    )
