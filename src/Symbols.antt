-- ===== src/Symbols.antt =====
-- src/debug_data_loader.c: the labels of functions and of sections that a binary holds behind its
-- code. A text is the list of its bytes without the final 0.
pub mod Names
pub mod Labels
pub mod Blocks
pub mod Load
pub mod Cut
mod Memory
use integer_java_virtual_mac.Base.{
  ℕ, zero, suc, ◌+◌, ◌-◌, ◌*◌, Bool, true, false, not, ◌&&◌, Option, none, some, List, [], ◌∷◌,
  ◌==◌, ltb, leb, if◌then◌else◌, length, drop,
}
use integer_java_virtual_mac.Base.Word.{wrap, sub_word}
use integer_java_virtual_mac.Machine.{fault, ok, out_of_fuel, M, pure, ◌>>=◌, update, alloc}
use integer_java_virtual_mac.Collector.{arr_gc}
use integer_java_virtual_mac.Util.{swap_uint32}
use integer_java_virtual_mac.Loader.{File, read_uint32}
use integer_java_virtual_mac.Symbols.Memory.{
  Text, SymbolBlock, DebugData, dup_retry, str_dup, get_block_size, skip_sized, skip_block, Reader,
  inc_addr, inc_names, inc_names_start, put_addr, put_start, put_char, getc, rest_of_file,
}
unfoldable pub use Memory.*

-- The `do` loop over the bytes of a name, which ends behind a 0.
unfoldable pub read_name : ℕ → Reader → M (Bool × Reader)
read_name zero t = λ _. out_of_fuel
read_name (suc fuel) t = do
  (enough, t₁) ← inc_names t
  if not enough then pure (false, t₁) else (do
    t₂ ← put_char (getc t.file) t₁
    let t₃ = record t₂ { file = rest_of_file t.file; bytes_read = wrap (t.bytes_read + 1) }
    if getc t.file == 0 then pure (true, t₃) else read_name fuel t₃)

-- A name needs a round for each byte that is left, and one more for each failure that the allocator
-- may have in store. A name that is cut off by the end of the file has no last byte.
unfoldable pub read_name_to_end : Reader → M (Bool × Reader)
read_name_to_end t s = read_name (suc (length t.file + length s.heap_answers)) t s

-- One symbol: its address, where its name starts, its name. An address that is cut off is swapped
-- all the same; the bytes of it that were read are left out, since the block is then given up.
unfoldable pub read_symbol : Reader → M (Bool × Reader)
read_symbol t = do
  (enough, t₁) ← inc_addr t
  if not enough then pure (false, t₁) else elim (read_uint32 t.file) [
    | none ↦ do
      t₂ ← put_addr (swap_uint32 (t₁.block.addr t₁.block.num)) t₁
      pure (false, record t₂ { file = []; bytes_read = wrap (t.bytes_read + 4) })
    | some (w, r) ↦ do
      t₂ ← put_addr (swap_uint32 w) t₁
      let t₃ = record t₂ { file = r; bytes_read = wrap (t.bytes_read + 4) }
      (enough', t₄) ← inc_names_start t₃
      if not enough' then pure (false, t₄) else (do
        t₅ ← put_start t₄
        (named, t₆) ← read_name_to_end t₅
        if not named
            then pure (false, t₆)
            else pure (true, record t₆ { block = record (t₆.block) { num = t₆.block.num + 1 } }))
  ]

-- The `for` loop over the symbols of a block of `size` bytes.
unfoldable pub read_symbols : ℕ → ℕ → Reader → M (Bool × Reader)
read_symbols zero size t = λ _. out_of_fuel
read_symbols (suc fuel) size t = if leb size t.bytes_read then pure (true, t) else (do
  (done, t') ← read_symbol t
  if done then read_symbols fuel size t' else pure (false, t'))

-- The part of `read_symbol_block` behind the size. A block that is cut off before its size is taken
-- to have been read. Every symbol takes up bytes of the file.
unfoldable pub read_sized : Option ℕ × File → SymbolBlock → M (Bool × File × SymbolBlock)
read_sized (none, f) b = pure (true, f, b)
read_sized (some n, f) b = if n == 0 then pure (true, f, record b { num = 0 }) else (do
  (done, t) ← read_symbols (suc (length f)) n (record {
    file = f;
    bytes_read = 0;
    addr_mem_size = 0;
    names_mem_size = 0;
    names_start_mem_size = 0;
    block = b;
  })
  pure (done, t.file, t.block))

unfoldable pub read_symbol_block : File → SymbolBlock → M (Bool × File × SymbolBlock)
read_symbol_block f b = read_sized (get_block_size f) b

abbrev pub no_symbols : SymbolBlock → SymbolBlock
no_symbols b = record b { num = 0; addr_bytes = 0; names_bytes = 0; starts_bytes = 0 }

-- `init_debug_data`
unfoldable pub init_debug_data : DebugData → DebugData
init_debug_data g = record {
  func_label = no_symbols g.func_label;
  sec_label = no_symbols g.sec_label;
}

-- The blocks of constants and code are passed over; a block of symbols is read even after a
-- failure. `consts` is whether the first block could be passed, `code` whether the second could.
unfoldable pub load_blocks : Bool → Bool × File → DebugData → M (Bool × DebugData)
load_blocks consts (code, f) g = do
  (funcs, f₁, b) ← read_symbol_block f g.func_label
  (secs, f₂, c) ← read_symbol_block f₁ g.sec_label
  let h : DebugData = record { func_label = b; sec_label = c }
  if ((consts && code) && funcs) && secs then pure (true, h) else pure (false, init_debug_data h)

abbrev pub load_behind : Bool × File → DebugData → M (Bool × DebugData)
load_behind (consts, f) g = load_blocks consts (skip_block f) g

unfoldable pub load_symbols : File → DebugData → M (Bool × DebugData)
load_symbols f g = load_behind (skip_block (drop 4 f)) g

-- What is printed in the end. A binary has no labels of sections without one of a function.
pub data Notice : Type 0 where
  no_debug_symbols symbols_loaded : Notice

abbrev pub notice : DebugData → Notice
notice g = if g.func_label.num == 0 then no_debug_symbols else symbols_loaded

-- The argument is what `fopen` gives.
unfoldable pub load_debug_data : Option File → DebugData → M (Bool × DebugData × Option Notice)
load_debug_data none g = pure (false, g, none)
load_debug_data (some f) g = do
  (read, h) ← load_symbols f g
  if read then pure (true, h, some (notice h)) else pure (false, h, none)

-- The bytes from `i` up to a 0, with the rounds that are left; behind the memory there is none.
unfoldable pub c_string : ℕ → (ℕ → ℕ) → ℕ → Option Text
c_string zero mem i = none
c_string (suc n) mem i =
    let rest = c_string n mem (i + 1) in
    if mem i == 0 then some [] else elim rest [ none ↦ none | some t ↦ some (mem i ∷ t) ]

abbrev pub or_fault : Option Text → M Text
or_fault none = λ _. fault
or_fault (some t) = pure t

abbrev pub name_at : SymbolBlock → ℕ → Option Text
name_at b i =
    if leb (i * 4 + 4) b.starts_bytes
    then (let at = b.names_start i in
        if leb at b.names_bytes then c_string (b.names_bytes - at) b.names at else none)
    else none

-- `get_func_name` and `get_section_name`.
unfoldable pub get_name : SymbolBlock → ℕ → M (Option Text)
get_name b i = do t ← or_fault (name_at b i); str_dup t
