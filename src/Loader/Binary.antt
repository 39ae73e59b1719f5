-- ===== src/Loader/Binary.antt =====
-- `load_bin` of src/loader.c on a well-formed binary (docs/ijvm.md).
use integer_java_virtual_mac.Base.{
  ℕ, ◌*◌, ◌/◌, ◌%◌, ◌≤◌, ◌<◌, ◌≡◌, refl, ◌∙◌, true, some, List, [], ◌∷◌, ◌++◌, length,
  length-append, take-append, drop-append, le→leb, ◌==◌, arith,
}
use integer_java_virtual_mac.Base.Word.{word_mod}
use integer_java_virtual_mac.Util.{swap_uint32}
use integer_java_virtual_mac.Util.Bytes.{word_of, swap_uint32_lem}
use integer_java_virtual_mac.Machine.{live, Vm, ok, AllocSucceeds, alloc-AllocSucceeds}
use integer_java_virtual_mac.Loader.{
  File, magic_number, read_uint32, read_words, read_bytes, filled, check_file_signature,
  fill_consts, load_consts, fill_code, load_code, load_parts, load_bin,
}

-- The bytes of a word, the highest first, before the rest of a file.
abbrev pub put_word : ℕ → File → File
put_word w f = w / 0x1000000 ∷ w / 0x10000 % 256 ∷ w / 256 % 256 ∷ w % 256 ∷ f

abbrev pub put_words : List ℕ → File → File
put_words [] f = f
put_words (w ∷ ws) f = put_word w (put_words ws f)

-- A binary with constants `ws` and code `bs`, each behind its origin and its size in bytes.
abbrev pub binary : ℕ → ℕ → List ℕ → List ℕ → File → File
binary o₁ o₂ ws bs f = put_word magic_number (
    put_word o₁
      (put_word (4 * length ws) (put_words ws (put_word o₂ (put_word (length bs) (bs ++ f))))))

abbrev pub AreWords : List ℕ → Type 0
AreWords [] = Unit
AreWords (w ∷ ws) = (w < word_mod) × AreWords ws

-- The word whose bytes are those of `w` the other way round.
abbrev pub raw : ℕ → ℕ
raw w = word_of (w / 0x1000000) (w / 0x10000 % 256) (w / 256 % 256) (w % 256)

pub read_uint32-put_word : (w : ℕ) (f : File) → read_uint32 (put_word w f) ≡ some (raw w, f)
unfolding read_uint32
read_uint32-put_word w f = refl

pub swap_uint32-raw : (w : ℕ) → w < word_mod → swap_uint32 (raw w) ≡ w
swap_uint32-raw w h =
    swap_uint32_lem (w / 0x1000000) (w / 0x10000 % 256) (w / 256 % 256) (w % 256) (omega arith)
      (omega arith) (omega arith) (omega arith)
    ∙ omega arith

read_words-put_words :
    (ws : List ℕ) (f : File) → AreWords ws → read_words (length ws) (put_words ws f) ≡ some (ws, f)
unfolding read_words read_uint32
read_words-put_words [] f h = refl
read_words-put_words (w ∷ ws) f (h, hs) =
    rw (read_words-put_words ws f hs, swap_uint32-raw w h) refl

read_bytes-append : (bs f : File) → read_bytes (length bs) (bs ++ f) ≡ some (bs, f)
unfolding read_bytes
read_bytes-append bs f =
    let fits : length bs ≤ length (bs ++ f) = omega (arith, length-append bs f) in
    rw (le→leb _ _ fits, take-append bs f, drop-append bs f) refl

-- The machine with loaded constants, and with loaded code.
abbrev pub with_consts : Vm → List ℕ → Vm
with_consts s ws = record s {
  cpu = record (s.cpu) {
    const_mem_size = 4 * length ws;
    const_mem = filled ws s.cpu.const_mem;
    const_block = live;
  };
}

abbrev pub with_code : Vm → List ℕ → Vm
with_code s bs = record s {
  cpu = record (s.cpu) {
    code_mem_size = length bs;
    code_mem = filled bs s.cpu.code_mem;
    code_block = live;
  };
}

module _ (s : Vm) (h : AllocSucceeds s) (o : ℕ) (f : File) where
  pub load_consts-put_words :
      (ws : List ℕ)
      → AreWords ws
      → 4 * length ws < word_mod
      → load_consts (put_word o (put_word (4 * length ws) (put_words ws f))) s
        ≡ ok (some f) (with_consts s ws)
  unfolding load_consts fill_consts
  load_consts-put_words ws words size =
      let even : (4 * length ws % 4 == 0) ≡ true = ground arith in
      let count : 4 * length ws / 4 ≡ length ws = omega arith in
      let t = record s { cpu = record (s.cpu) { const_mem_size = 4 * length ws } } in
      rw
        (
          read_uint32-put_word o (put_word (4 * length ws) (put_words ws f)),
          read_uint32-put_word (4 * length ws) (put_words ws f),
          swap_uint32-raw (4 * length ws) size,
          even,
          alloc-AllocSucceeds t h,
          count,
          read_words-put_words ws f words,
        )
        refl

  load_code-append :
      (bs : List ℕ)
      → length bs < word_mod
      → load_code (put_word o (put_word (length bs) (bs ++ f))) s ≡ ok (some f) (with_code s bs)
  unfolding load_code fill_code
  load_code-append bs size =
      let t = record s { cpu = record (s.cpu) { code_mem_size = length bs } } in
      rw
        (
          read_uint32-put_word o (put_word (length bs) (bs ++ f)),
          read_uint32-put_word (length bs) (bs ++ f),
          swap_uint32-raw (length bs) size,
          alloc-AllocSucceeds t h,
          read_bytes-append bs f,
        )
        refl

-- A well-formed binary, of words and of sizes below 2 ^ 32 bytes, is loaded, where no allocation
-- fails: the two memories hold the constants, each in the order of the machine, and the bytes of
-- the code, with their sizes in bytes. The origins may be any numbers and what follows the code is
-- not read; nothing else changes.
pub load_bin-binary :
    (s : Vm) (o₁ o₂ : ℕ) (ws bs : List ℕ) (f : File)
    → AllocSucceeds s
    → AreWords ws
    → 4 * length ws < word_mod
    → length bs < word_mod
    → load_bin (some (binary o₁ o₂ ws bs f)) s ≡ ok true (with_code (with_consts s ws) bs)
unfolding load_bin load_parts check_file_signature
load_bin-binary s o₁ o₂ ws bs f h words consts code =
    let tail = put_word o₂ (put_word (length bs) (bs ++ f)) in
    rw
      (
        read_uint32-put_word magic_number
            (put_word o₁ (put_word (4 * length ws) (put_words ws tail))),
        swap_uint32-raw magic_number (omega arith),
        load_consts-put_words s h o₁ tail ws words consts,
        load_code-append (with_consts s ws) h o₂ f bs code,
      )
      refl
