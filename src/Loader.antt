-- ===== src/Loader.antt =====
-- src/loader.c: a binary is a magic number, the constants and the code. A file is the list of the
-- bytes that are left; `none` is the result `false` of a loading function.
pub mod Binary
pub mod Accepts
use integer_java_virtual_mac.Base.{
  ℕ, zero, suc, ◌+◌, ◌*◌, ◌/◌, ◌%◌, Bool, true, false, not, Option, none, some, List, [], ◌∷◌, ◌==◌,
  ltb, leb, if◌then◌else◌, length, get_or, take, drop,
}
use integer_java_virtual_mac.Machine.{null, live, ok, M, pure, ◌>>=◌, ◌>>◌, modify_cpu, alloc}
use integer_java_virtual_mac.Util.{swap_uint32}

abbrev pub magic_number : ℕ
magic_number = 0x1dead_fad

abbrev pub File : Type 0
File = List ℕ

-- `fread` of one `uint32_t`, whose lowest byte comes first.
unfoldable pub read_uint32 : File → Option (ℕ × File)
read_uint32 (b0 ∷ b1 ∷ b2 ∷ b3 ∷ f) = some (b0 + b1 * 0x100 + b2 * 0x10000 + b3 * 0x1000000, f)
read_uint32 _ = none

-- `fread` of `n` words, each put into the order of the machine.
unfoldable pub read_words : ℕ → File → Option (List ℕ × File)
read_words zero f = some ([], f)
read_words (suc n) f = elim (read_uint32 f) [
  | none ↦ none
  | some (w, f') ↦ elim (read_words n f') [
    | none ↦ none
    | some (ws, r) ↦ some (swap_uint32 w ∷ ws, r)
  ]
]

unfoldable pub read_bytes : ℕ → File → Option (List ℕ × File)
read_bytes n f = if leb n (length f) then some (take n f, drop n f) else none

-- Memory whose first cells are given; the others are as they were.
abbrev pub filled : List ℕ → (ℕ → ℕ) → ℕ → ℕ
filled xs old i = if ltb i (length xs) then get_or xs i 0 else old i

unfoldable pub check_file_signature : ℕ → Bool
check_file_signature magic = swap_uint32 magic == magic_number

-- Go on with what was read, or return `false`.
abbrev pub with_read :
    {A : Type 0} → Option (A × File) → (A → File → M (Option File)) → M (Option File)
with_read none k = pure none
with_read (some (a, f)) k = k a f

abbrev pub fail_if : Bool → M (Option File) → M (Option File)
fail_if b m s = if b then ok none s else m s

unfoldable pub fill_consts : Option (List ℕ × File) → M (Option File)
fill_consts r =
    with_read r
      λ ws f. modify_cpu (λ c. record c { const_mem = filled ws c.const_mem }) >> pure (some f)

unfoldable pub load_consts : File → M (Option File)
load_consts f = with_read (read_uint32 f) λ origin f₁. with_read (read_uint32 f₁) λ raw f₂. do
  let size = swap_uint32 raw
  modify_cpu (λ c. record c { const_mem_size = size })
  fail_if (not (size % 4 == 0)) (do
    enough ← alloc
    modify_cpu (λ c. record c { const_block = if enough then live else null })
    fail_if (not enough) (fill_consts (read_words (size / 4) f₂)))

unfoldable pub fill_code : Option (List ℕ × File) → M (Option File)
fill_code r =
    with_read r
      λ bs f. modify_cpu (λ c. record c { code_mem = filled bs c.code_mem }) >> pure (some f)

unfoldable pub load_code : File → M (Option File)
load_code f = with_read (read_uint32 f) λ origin f₁. with_read (read_uint32 f₁) λ raw f₂. do
  let size = swap_uint32 raw
  modify_cpu (λ c. record c { code_mem_size = size })
  enough ← alloc
  modify_cpu (λ c. record c { code_block = if enough then live else null })
  fail_if (not enough) (fill_code (read_bytes size f₂))

-- The parts in order; the first that fails ends the loading.
unfoldable pub load_parts : File → M (Option File)
load_parts f = with_read (read_uint32 f) λ magic f₁.
    fail_if (not (check_file_signature magic))
      (do consts ← load_consts f₁; elim consts [ none ↦ pure none | some f₂ ↦ load_code f₂ ])

-- The argument is what `fopen` gives: the content of the file, or `none` for NULL.
unfoldable pub load_bin : Option File → M Bool
load_bin none = pure false
load_bin (some f) = do r ← load_parts f; elim r [ none ↦ pure false | some _ ↦ pure true ]
