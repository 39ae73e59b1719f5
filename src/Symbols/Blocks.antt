-- ===== src/Symbols/Blocks.antt =====
-- The loop of `read_symbol_block` of src/debug_data_loader.c on the symbols of a block.
use mathlib.Core.Path.{subst}
use integer_java_virtual_mac.Base.{
  ℕ, zero, suc, ◌+◌, ◌*◌, ◌≤◌, ◌<◌, ◌≡◌, refl, sym, ◌∙◌, true, false, List, [], ◌∷◌, leb, le→leb,
  lt→leb, length, arith,
}
use integer_java_virtual_mac.Base.Word.{word_mod}
use integer_java_virtual_mac.Machine.{Vm, ok, update, AllocSucceeds}
use integer_java_virtual_mac.Loader.{File}
use integer_java_virtual_mac.Symbols.{read_symbol, read_symbols}
use integer_java_virtual_mac.Symbols.Names.{HasText, HasText-frame, reader}
use integer_java_virtual_mac.Symbols.Labels.{
  Label, put_labels, labels_size, AreLabels, Entries, read_symbol-put_word,
}

-- Reading `ls` into a block that has `k` symbols and `m` bytes of names.
pub record Filled (s : Vm) (ls : List Label) (fuel r k m : ℕ) (addr names starts : ℕ → ℕ) (f : File)
    : Type 0 where
  pub bytes : ℕ
  pub addr' : ℕ → ℕ
  pub names' : ℕ → ℕ
  pub starts' : ℕ → ℕ
  pub result :
      read_symbols fuel
        (r + labels_size ls)
        (reader (put_labels ls f) r k k k m addr names starts)
        s
      ≡ ok
          (
            true,
            reader f
                (r + labels_size ls)
                (k + length ls)
                (k + length ls)
                (k + length ls)
                bytes
                addr'
                names'
                starts',
          )
          s
  pub more : m ≤ bytes
  pub few : bytes ≤ m + labels_size ls
  pub addrs : (j : ℕ) → j < k → addr' j ≡ addr j
  pub texts : (j : ℕ) → j < m → names' j ≡ names j
  pub starting : (j : ℕ) → j < k → starts' j ≡ starts j
  pub entries : Entries addr' names' starts' bytes k ls

module _ (s : Vm) (h : AllocSucceeds s) (f : File) where
  Filled-empty :
      (fuel r k m : ℕ) (addr names starts : ℕ → ℕ)
      → Filled s [] (suc fuel) r k m addr names starts f
  unfolding read_symbols
  Filled-empty fuel r k m addr names starts =
      let all : leb (r + 0) r ≡ true = le→leb _ _ (omega arith) in
      let e : r ≡ r + 0 = omega arith in
      let e' : k ≡ k + 0 = omega arith in
      record {
        bytes = m;
        addr' = addr;
        names' = names;
        starts' = starts;
        result = rw (all, ← e, ← e') refl;
        more = omega arith;
        few = omega arith;
        addrs = λ j lt. refl;
        texts = λ j lt. refl;
        starting = λ j lt. refl;
        entries = tt;
      }

  Filled-more :
      (l : Label) (ls : List Label) (fuel r k m : ℕ) (addr names starts mem : ℕ → ℕ)
      → read_symbol (reader (put_labels (l ∷ ls) f) r k k k m addr names starts) s
        ≡ ok
            (
              true,
              reader
                  (put_labels ls f)
                  (r + 4 + length l.name + 1)
                  (k + 1)
                  (k + 1)
                  (k + 1)
                  (m + length l.name + 1)
                  (update addr k l.at)
                  mem
                  (update starts k m),
            )
            s
      → ((j : ℕ) → j < m → mem j ≡ names j)
      → HasText mem m l.name
      → Filled s ls fuel
          (r + 4 + length l.name + 1)
          (k + 1)
          (m + length l.name + 1)
          (update addr k l.at)
          mem
          (update starts k m)
          f
      → Filled s (l ∷ ls) (suc fuel) r k m addr names starts f
  unfolding read_symbols
  Filled-more l ls fuel r k m addr names starts mem e same has t =
      let left : leb (r + labels_size (l ∷ ls)) r ≡ false = lt→leb _ _ (omega arith) in
      let sum : r + 4 + length l.name + 1 + labels_size ls ≡ r + labels_size (l ∷ ls) =
        omega arith in
      let sum' : k + 1 + length ls ≡ k + suc (length ls) = omega arith in
      let start : t.starts' k ≡ m = t.starting k (omega arith) ∙ ground arith in
      record {
        bytes = t.bytes;
        addr' = t.addr';
        names' = t.names';
        starts' = t.starts';
        result = rw (left, e) (rw⁻¹ (sum, sum') t.result);
        more = omega (arith, t.more);
        few = omega (arith, t.few);
        addrs = λ j lt. t.addrs j (omega arith) ∙ ground arith;
        texts = λ j lt. t.texts j (omega arith) ∙ same j lt;
        starting = λ j lt. t.starting j (omega arith) ∙ ground arith;
        entries = (
          (
            t.addrs k (omega arith) ∙ ground arith,
            subst (λ (i : ℕ). HasText t.names' i l.name) (sym start)
                (HasText-frame mem t.names' l.name m (m + length l.name + 1) t.texts (omega arith)
                  has),
            omega (arith, start, t.more),
          ),
          t.entries,
        );
      }

  pub read_symbols-put_labels :
      (ls : List Label) (fuel r k m : ℕ) (addr names starts : ℕ → ℕ)
      → AreLabels ls
      → k ≤ m
      → (m + labels_size ls) * 4 < word_mod
      → r + labels_size ls < word_mod
      → length ls < fuel
      → Filled s ls fuel r k m addr names starts f
  read_symbols-put_labels [] zero r k m addr names starts labels le small short lt =
      absurd (omega arith)
  read_symbols-put_labels (l ∷ ls) zero r k m addr names starts labels le small short lt =
      absurd (omega arith)
  read_symbols-put_labels [] (suc fuel) r k m addr names starts labels le small short lt =
      Filled-empty fuel r k m addr names starts
  read_symbols-put_labels (l ∷ ls) (suc fuel) r k m addr names starts (word, text, labels) le small
        short lt =
      let (mem, e, same, has) =
        read_symbol-put_word s h l r k m addr names starts (put_labels ls f) word text le
          (omega arith) (omega arith) in
      let rest : Filled s ls fuel (r + 4 + length l.name + 1) (k + 1) (m + length l.name + 1)
          (update addr k l.at) mem (update starts k m) f =
        read_symbols-put_labels ls fuel _ _ _ _ _ _ labels (omega arith) (omega arith) (omega arith)
          (omega arith) in
      Filled-more l ls fuel r k m addr names starts mem e same has rest
