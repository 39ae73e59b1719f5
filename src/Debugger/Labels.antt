-- ===== src/Debugger/Labels.antt =====
-- Labels and breakpoints of src/ijdb.c.
use integer_java_virtual_mac.Base.{
  ℕ, zero, suc, ◌+◌, ◌*◌, Bool, true, false, not, ◌&&◌, ◌||◌, Option, none, some, [], ◌∷◌, ◌==◌,
  ltb, leb, if◌then◌else◌,
}
use integer_java_virtual_mac.Base.Word.{minus_one, sub_word}
use integer_java_virtual_mac.Machine.{ok, fault}
use integer_java_virtual_mac.Symbols.{Text, SymbolBlock, get_name}
use integer_java_virtual_mac.Debugger.Sequence.{D, done, ◌>>=◌, on_vm, crash, read_breakpoint}

abbrev pub unknown_name : Text
unknown_name = 63 ∷ 63 ∷ []

-- `strcmp(a, b) == 0`
abbrev pub same_text : Text → Text → Bool
same_text [] [] = true
same_text [] (c ∷ b) = false
same_text (c ∷ a) [] = false
same_text (c ∷ a) (e ∷ b) = (c == e) && same_text a b

unfoldable pub symbol_addr : SymbolBlock → ℕ → D ℕ
symbol_addr b i d s = if leb (i * 4 + 4) b.addr_bytes then ok (b.addr i, d) s else fault

-- The loop of `addr_to_func_name` from label `i` on, with the labels that are left; `none` is NULL.
-- The index before the first label is the largest `uint32_t`.
unfoldable pub find_func_name : ℕ → ℕ → ℕ → D (Option Text)
find_func_name zero i addr = done none
find_func_name (suc n) i addr = do
  b ← (λ d. ok (d.debug_data.func_label, d))
  at ← symbol_addr b i
  if addr == at
      then on_vm (get_name b i)
      else (if ltb addr at
          then on_vm (get_name b (sub_word i 1))
          else find_func_name n (i + 1) addr)

abbrev pub name_or_unknown : Option Text → Text
name_or_unknown none = unknown_name
name_or_unknown (some t) = t

unfoldable pub addr_to_func_name : ℕ → D Text
addr_to_func_name addr = do
  b ← (λ d. ok (d.debug_data.func_label, d))
  if b.num == 0
      then done unknown_name
      else (do name ← find_func_name b.num 0 addr; done (name_or_unknown name))

-- `strcmp` of a name that could not be copied, NULL, is undefined.
abbrev pub compare_name : Text → Option Text → D Bool
compare_name label none = crash
compare_name label (some t) = done (same_text label t)

-- A loop of `label_name_to_addr` over the labels of a block.
unfoldable pub find_label : SymbolBlock → ℕ → ℕ → Text → D ℕ
find_label b zero i label = done minus_one
find_label b (suc n) i label = do
  name ← on_vm (get_name b i)
  same ← compare_name label name
  if same then symbol_addr b i else find_label b n (i + 1) label

unfoldable pub label_name_to_addr : Text → D ℕ
label_name_to_addr label = do
  g ← (λ d. ok (d.debug_data, d))
  if g.sec_label.num == 0 then done minus_one else (do
    found ← find_label g.sec_label g.sec_label.num 0 label
    if not (found == minus_one) || (g.func_label.num == 0)
        then done found
        else find_label g.func_label g.func_label.num 0 label)

-- The loop of `at_breakpoint`, with the breakpoints that are left.
unfoldable pub find_breakpoint : ℕ → ℕ → ℕ → D ℕ
find_breakpoint zero i pc = done 0
find_breakpoint (suc n) i pc = do
  at ← read_breakpoint i
  if at == pc then done (i + 1) else find_breakpoint n (i + 1) pc

unfoldable pub at_breakpoint : D ℕ
at_breakpoint d s = find_breakpoint d.brkpts_num 0 s.cpu.pc d s
