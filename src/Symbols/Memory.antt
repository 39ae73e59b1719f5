-- ===== src/Symbols/Memory.antt =====
-- The memory that src/debug_data_loader.c reads symbols into, and `str_dup` of src/util.c. The
-- sizes of the three memories of a block of symbols are in bytes, and what `realloc` leaves
-- uninitialised is arbitrary.
use integer_java_virtual_mac.Base.{
  ℕ, zero, suc, ◌+◌, ◌*◌, Bool, true, false, Option, none, some, List, [], ◌∷◌, ◌==◌, ltb, leb,
  if◌then◌else◌, length, drop,
}
use integer_java_virtual_mac.Base.Word.{wrap, sub_word}
use integer_java_virtual_mac.Machine.{fault, ok, out_of_fuel, M, pure, ◌>>=◌, update, alloc}
use integer_java_virtual_mac.Collector.{arr_gc}
use integer_java_virtual_mac.Util.{swap_uint32}
use integer_java_virtual_mac.Loader.{File, read_uint32}

abbrev pub Text : Type 0
Text = List ℕ

-- `SymbolBlock_t` and `DebugData_t` of include/debug_data_loader.h.
pub record SymbolBlock : Type 0 where
  pub num : ℕ
  pub addr_bytes : ℕ
  pub addr : ℕ → ℕ
  pub names_bytes : ℕ
  pub names : ℕ → ℕ
  pub starts_bytes : ℕ
  pub names_start : ℕ → ℕ

pub record DebugData : Type 0 where
  pub func_label : SymbolBlock
  pub sec_label : SymbolBlock

-- `str_dup`, whose call of itself after a failed allocation takes fuel; `none` is NULL.
unfoldable pub dup_retry : ℕ → Text → M (Option Text)
dup_retry zero src = λ _. out_of_fuel
dup_retry (suc fuel) src = do
  enough ← alloc
  if enough
      then pure (some src)
      else (do freed ← arr_gc; if freed == 0 then pure none else dup_retry fuel src)

unfoldable pub str_dup : Text → M (Option Text)
str_dup src s = dup_retry (suc (length s.heap_answers)) src s

-- The size of a block, or `none` for -1. The origin is passed over.
unfoldable pub get_block_size : File → Option ℕ × File
get_block_size f = elim (read_uint32 (drop 4 f)) [
  | none ↦ (none, [])
  | some (w, r) ↦ (some (swap_uint32 w), r)
]

abbrev pub skip_sized : Option ℕ × File → Bool × File
skip_sized (none, f) = (false, f)
skip_sized (some n, f) = (true, drop n f)

unfoldable pub skip_block : File → Bool × File
skip_block f = skip_sized (get_block_size f)

-- The local variables of `read_symbol_block`, with the block and what is left of the file.
pub record Reader : Type 0 where
  pub file : File
  pub bytes_read : ℕ
  pub addr_mem_size : ℕ
  pub names_mem_size : ℕ
  pub names_start_mem_size : ℕ
  pub block : SymbolBlock

-- `inc_memory_size` on each of the three memories: the count grows by one even when there is no
-- memory, and the size in bytes is a `uint32_t`.
unfoldable pub inc_addr : Reader → M (Bool × Reader)
inc_addr t = do
  enough ← alloc
  let n = wrap (t.addr_mem_size + 1)
  let r = record t { addr_mem_size = n }
  pure (
    enough,
    if enough then record r { block = record (t.block) { addr_bytes = wrap (n * 4) } } else r,
  )

unfoldable pub inc_names : Reader → M (Bool × Reader)
inc_names t = do
  enough ← alloc
  let n = wrap (t.names_mem_size + 1)
  let r = record t { names_mem_size = n }
  pure (
    enough,
    if enough then record r { block = record (t.block) { names_bytes = wrap (n * 4) } } else r,
  )

unfoldable pub inc_names_start : Reader → M (Bool × Reader)
inc_names_start t = do
  enough ← alloc
  let n = wrap (t.names_start_mem_size + 1)
  let r = record t { names_start_mem_size = n }
  pure (
    enough,
    if enough then record r { block = record (t.block) { starts_bytes = wrap (n * 4) } } else r,
  )

-- An element of four bytes, and one byte, written through the pointer to a memory.
unfoldable pub put_addr : ℕ → Reader → M Reader
put_addr v t s =
    if leb (t.block.num * 4 + 4) t.block.addr_bytes
    then ok (record t { block = record (t.block) { addr = update t.block.addr t.block.num v } }) s
    else fault

unfoldable pub put_start : Reader → M Reader
put_start t s =
    if leb (t.block.num * 4 + 4) t.block.starts_bytes
    then ok
        (record t {
          block = record (t.block) {
            names_start = update t.block.names_start t.block.num t.names_mem_size;
          };
        })
        s
    else fault

unfoldable pub put_char : ℕ → Reader → M Reader
put_char c t s =
    let i = sub_word t.names_mem_size 1 in
    if ltb i t.block.names_bytes
    then ok (record t { block = record (t.block) { names = update t.block.names i c } }) s
    else fault

-- `getc`, which gives EOF, as a `char` the byte 255, at the end of the file and goes on to do so.
abbrev pub getc : File → ℕ
getc [] = 255
getc (c ∷ _) = c

abbrev pub rest_of_file : File → File
rest_of_file [] = []
rest_of_file (_ ∷ f) = f
