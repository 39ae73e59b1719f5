-- ===== src/Debugger/Names.antt =====
-- `addr_to_func_name` of src/ijdb.c on the labels that were loaded.
use mathlib.Core.Path.{subst}
use integer_java_virtual_mac.Base.{
  ℕ, suc, ◌+◌, ◌*◌, ◌≤◌, ◌<◌, ◌≡◌, refl, ap, ◌∙◌, true, false, Option, none, some, List, [], ◌∷◌,
  ◌++◌, ◌==◌, leb, lt→ltb, le→ltb, le→leb, lt→leb, ne→==, length, Bool-cases, inl, inr,
  length-append, arith,
}
use integer_java_virtual_mac.Base.Word.{word_mod, sub_word}
use integer_java_virtual_mac.Machine.{Vm, ok, fault, AllocSucceeds, alloc-AllocSucceeds}
use integer_java_virtual_mac.Symbols.{Text, SymbolBlock, name_at, dup_retry, str_dup, get_name}
use integer_java_virtual_mac.Symbols.Labels.{Label}
use integer_java_virtual_mac.Symbols.Load.{HasLabels-num, HasLabels}
use integer_java_virtual_mac.Debugger.{
  Dbg, unknown_name, name_or_unknown, symbol_addr, find_func_name, addr_to_func_name,
}

get_name-ok :
    (b : SymbolBlock) (i : ℕ) (t : Text) (s : Vm)
    → AllocSucceeds s
    → name_at b i ≡ some t
    → get_name b i s ≡ ok (some t) s
unfolding get_name str_dup dup_retry
get_name-ok b i t s h e = rw (e, alloc-AllocSucceeds s h) refl

-- All the labels are below the address.
abbrev pub AreBelow : List Label → ℕ → Type 0
AreBelow [] addr = Unit
AreBelow (l ∷ ls) addr = (l.at < addr) × AreBelow ls addr

HasLabels-drop :
    (below ls : List Label) (b : SymbolBlock) (i : ℕ)
    → HasLabels b i (below ++ ls)
    → HasLabels b (i + length below) ls
HasLabels-drop [] ls b i h = subst (λ (k : ℕ). HasLabels b k ls) (omega arith) h
HasLabels-drop (l ∷ below) ls b i (_, _, _, h) =
    subst (λ (k : ℕ). HasLabels b k ls) (omega arith) (HasLabels-drop below ls b (i + 1) h)

eq→== : (a b : ℕ) → a ≡ b → (a == b) ≡ true
eq→== a b e = ground (arith, e)

module _ (d : Dbg) (s : Vm) (addr : ℕ) where
  -- One label.
  find_func_name-label :
      (n i at : ℕ)
      → i * 4 + 4 ≤ d.debug_data.func_label.addr_bytes
      → d.debug_data.func_label.addr i ≡ at
      → at < addr
      → find_func_name (suc n) i addr d s ≡ find_func_name n (i + 1) addr d s
  unfolding find_func_name symbol_addr
  find_func_name-label n i at inside e lt =
      rw (le→leb _ _ inside, e, ne→== addr at (omega arith), le→ltb addr at (omega arith)) refl

  find_func_name-AreBelow :
      (below ls : List Label) (i : ℕ)
      → HasLabels d.debug_data.func_label i (below ++ ls)
      → AreBelow below addr
      → find_func_name (length (below ++ ls)) i addr d s
        ≡ find_func_name (length ls) (i + length below) addr d s
  find_func_name-AreBelow [] ls i h lows =
      ap (λ (k : ℕ). find_func_name (length ls) k addr d s) (omega arith)
  find_func_name-AreBelow (l ∷ below) ls i (inside, at, name, h) (low, lows) =
      find_func_name-label (length (below ++ ls)) i l.at inside at low
      ∙ find_func_name-AreBelow below ls (i + 1) h lows
      ∙ ap (λ (k : ℕ). find_func_name (length ls) k addr d s) (omega arith)

  -- The label at the address, and the first one above it.
  find_func_name-at :
      (n i : ℕ) (l : Label) (ls : List Label)
      → AllocSucceeds s
      → HasLabels d.debug_data.func_label i (l ∷ ls)
      → addr ≡ l.at
      → find_func_name (suc n) i addr d s ≡ ok (some l.name, d) s
  unfolding find_func_name symbol_addr
  find_func_name-at n i l ls h (inside, at, name, _) e =
      rw
        (
          le→leb _ _ inside,
          at,
          eq→== addr l.at e,
          get_name-ok d.debug_data.func_label i l.name s h name,
        )
        refl

  find_func_name-above :
      (n i : ℕ) (l next : Label) (ls : List Label)
      → AllocSucceeds s
      → HasLabels d.debug_data.func_label i (l ∷ next ∷ ls)
      → i + 1 < word_mod
      → l.at < addr
      → addr < next.at
      → find_func_name (suc (suc n)) i addr d s ≡ ok (some l.name, d) s
  unfolding find_func_name symbol_addr
  find_func_name-above n i l next ls h (inside, at, name, (inside', at', _, _)) small low high =
      let before : sub_word (i + 1) 1 ≡ i = omega arith in
      find_func_name-label (suc n) i l.at inside at low
      ∙ rw
          (
            le→leb _ _ inside',
            at',
            ne→== addr next.at (omega arith),
            lt→ltb addr next.at high,
            before,
            get_name-ok d.debug_data.func_label i l.name s h name,
          )
          refl

  addr_to_func_name-find :
      (ls : List Label)
      → HasLabels d.debug_data.func_label 0 ls
      → 0 < length ls
      → (name : Option Text) → find_func_name (length ls) 0 addr d s ≡ ok (name, d) s
      → addr_to_func_name addr d s ≡ ok (name_or_unknown name, d) s
  unfolding addr_to_func_name
  addr_to_func_name-find [] h ne name e = absurd (omega arith)
  addr_to_func_name-find (l ∷ ls) h ne name e =
      let num : d.debug_data.func_label.num ≡ suc (length ls) =
        omega (arith, HasLabels-num (l ∷ ls) d.debug_data.func_label 0 h) in
      let some_label : (d.debug_data.func_label.num == 0) ≡ false = ne→== _ _ (omega arith) in
      let found = ap (λ (k : ℕ). find_func_name k 0 addr d s) num ∙ e in rw (some_label, found) refl

  addr_to_func_name-none :
      d.debug_data.func_label.num ≡ 0 → addr_to_func_name addr d s ≡ ok (unknown_name, d) s
  unfolding addr_to_func_name
  addr_to_func_name-none e =
      let no_label : (d.debug_data.func_label.num == 0) ≡ true = eq→== _ _ e in rw no_label refl

  -- Behind the labels `below`.
  find_func_name-behind :
      (below ls : List Label) (name : Option Text)
      → HasLabels d.debug_data.func_label 0 (below ++ ls)
      → AreBelow below addr
      → find_func_name (length ls) (0 + length below) addr d s ≡ ok (name, d) s
      → find_func_name (length (below ++ ls)) 0 addr d s ≡ ok (name, d) s
  find_func_name-behind below ls name h lows e = find_func_name-AreBelow below ls 0 h lows ∙ e

  -- Where the labels of functions are those of `below`, at lower addresses than the one asked for,
  -- then `l`, `next` and others, and the address lies from `l` on and before `next`, it has the
  -- name of `l`, if no allocation fails.
  pub addr_to_func_name-inside :
      (below above : List Label) (l next : Label)
      → AllocSucceeds s
      → HasLabels d.debug_data.func_label 0 (below ++ l ∷ next ∷ above)
      → length below + 1 < word_mod
      → AreBelow below addr
      → l.at ≤ addr
      → addr < next.at
      → addr_to_func_name addr d s ≡ ok (l.name, d) s
  addr_to_func_name-inside below above l next h labels few lows low high =
      let at_l = HasLabels-drop below (l ∷ next ∷ above) d.debug_data.func_label 0 labels in
      addr_to_func_name-find (below ++ l ∷ next ∷ above) labels
        (omega (arith, length-append below (l ∷ next ∷ above))) (some l.name)
        (find_func_name-behind below (l ∷ next ∷ above) (some l.name) labels lows
          (elim (Bool-cases (addr == l.at)) [
            | inl e ↦
                find_func_name-at (suc (length above)) (0 + length below) l (next ∷ above) h at_l
                  (ground arith)
            | inr e ↦
                find_func_name-above (length above) (0 + length below) l next above h at_l
                  (omega arith) (ground arith) high
          ]))

  find_func_name-none :
      (ls : List Label) (i : ℕ)
      → HasLabels d.debug_data.func_label i ls
      → AreBelow ls addr
      → find_func_name (length ls) i addr d s ≡ ok (none, d) s
  unfolding find_func_name
  find_func_name-none [] i labels lows = refl
  find_func_name-none (l ∷ ls) i (inside, at, _, labels) (low, lows) =
      find_func_name-label (length ls) i l.at inside at low
      ∙ find_func_name-none ls (i + 1) labels lows

  -- An address above all labels has no name, whatever the labels are: also one inside the last
  -- function.
  pub addr_to_func_name-AreBelow :
      (ls : List Label)
      → HasLabels d.debug_data.func_label 0 ls
      → AreBelow ls addr
      → addr_to_func_name addr d s ≡ ok (unknown_name, d) s
  addr_to_func_name-AreBelow [] labels lows = addr_to_func_name-none labels
  addr_to_func_name-AreBelow (l ∷ ls) labels lows =
      addr_to_func_name-find (l ∷ ls) labels (omega arith) none
        (find_func_name-none (l ∷ ls) 0 labels lows)

  -- For an address below the first label the name of the label before it is looked up: a read
  -- outside the starts of the names, which take less than 2 ^ 32 bytes.
  pub addr_to_func_name-before :
      (l : Label) (ls : List Label)
      → HasLabels d.debug_data.func_label 0 (l ∷ ls)
      → d.debug_data.func_label.starts_bytes < word_mod
      → addr < l.at
      → addr_to_func_name addr d s ≡ fault
  unfolding addr_to_func_name find_func_name symbol_addr get_name
  addr_to_func_name-before l ls (inside, at, name, h) small high =
      let num : d.debug_data.func_label.num ≡ suc (length ls) =
        omega (arith, HasLabels-num (l ∷ ls) d.debug_data.func_label 0 (inside, at, name, h)) in
      let some_label : (d.debug_data.func_label.num == 0) ≡ false = ne→== _ _ (omega arith) in
      let index : sub_word 0 1 ≡ 0xffff_ffff = refl in
      let outside : leb (0xffff_ffff * 4 + 4) d.debug_data.func_label.starts_bytes ≡ false =
        lt→leb _ _ (omega arith) in
      let first : find_func_name (suc (length ls)) 0 addr d s ≡ fault =
        rw
          (
            le→leb (0 * 4 + 4) _ inside,
            at,
            ne→== addr l.at (omega arith),
            lt→ltb addr l.at high,
            outside,
          )
          refl in
      let found = ap (λ (k : ℕ). find_func_name k 0 addr d s) num ∙ first in
      rw (some_label, found) refl
