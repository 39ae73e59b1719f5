-- ===== src/Loader/Accepts.antt =====
-- `load_bin` of src/loader.c accepts the well-formed binaries and nothing else.
use integer_java_virtual_mac.Base.{
  ℕ, zero, suc, ◌+◌, ◌*◌, ◌/◌, ◌%◌, ◌<◌, ◌≡◌, refl, ◌∙◌, true, false, ◌⊎◌, inl, inr, Bool-cases,
  none, some, List, [], ◌∷◌, ◌++◌, length, length-take, append-take-drop, sym, take, drop, leb,
  ◌==◌, ap, arith,
}
use integer_java_virtual_mac.Base.Word.{word_mod}
use integer_java_virtual_mac.Machine.{Vm, live, ok, AllocSucceeds, alloc-AllocSucceeds}
use integer_java_virtual_mac.Loader.{
  File, magic_number, read_uint32, read_words, read_bytes, check_file_signature, fill_consts,
  load_consts, fill_code, load_code, load_parts, load_bin,
}
use integer_java_virtual_mac.Loader.Binary.{
  put_word, put_words, binary, AreWords, raw, swap_uint32-raw, with_consts, with_code,
  load_bin-binary, load_consts-put_words,
}

abbrev pub AreBytes : File → Type 0
AreBytes [] = Unit
AreBytes (b ∷ f) = (b < 256) × AreBytes f

-- A read of a word gives one whose bytes are there, or there are fewer than four.
read_uint32-cases :
    (f : File)
    → AreBytes f
    → ((w : ℕ) × (f' : File) × (w < word_mod)
        × (f ≡ put_word w f')
        × AreBytes f'
        × (read_uint32 f ≡ some (raw w, f')))
      ⊎ (read_uint32 f ≡ none)
unfolding read_uint32
read_uint32-cases [] h = inr refl
read_uint32-cases (b0 ∷ []) h = inr refl
read_uint32-cases (b0 ∷ b1 ∷ []) h = inr refl
read_uint32-cases (b0 ∷ b1 ∷ b2 ∷ []) h = inr refl
read_uint32-cases (b0 ∷ b1 ∷ b2 ∷ b3 ∷ f) (h0, (h1, (h2, (h3, h)))) =
    let w = b0 * 0x1000000 + b1 * 0x10000 + b2 * 256 + b3 in
    let e0 : w / 0x1000000 ≡ b0 = omega arith in
    let e1 : w / 0x10000 % 256 ≡ b1 = omega arith in
    let e2 : w / 256 % 256 ≡ b2 = omega arith in
    let e3 : w % 256 ≡ b3 = omega arith in
    inl (w, f, omega arith, rw (e0, e1, e2, e3) refl, h, rw (e0, e1, e2, e3) refl)

read_words-cases :
    (n : ℕ) (f : File)
    → AreBytes f
    → ((ws : List ℕ) × (f' : File) × (length ws ≡ n)
        × AreWords ws
        × (f ≡ put_words ws f')
        × AreBytes f')
      ⊎ (read_words n f ≡ none)
unfolding read_words
read_words-cases zero f h = inl ([], f, refl, tt, refl, h)
read_words-cases (suc n) f h = elim (read_uint32-cases f h) [
  | inr e ↦ inr (rw (read_words, e) refl)
  | inl (w, f₁, lt, e, h₁, got) ↦ elim (read_words-cases n f₁ h₁) [
    | inr e' ↦ inr (ground (arith, got, e'))
    | inl (ws, f₂, count, words, e', h₂) ↦
        inl (w ∷ ws, f₂, ap suc count, (lt, words), e ∙ ap (put_word w) e', h₂)
  ]
]

read_bytes-cases :
    (n : ℕ) (f : File)
    → ((bs : File) × (f' : File) × (length bs ≡ n) × (f ≡ bs ++ f')) ⊎ (read_bytes n f ≡ none)
unfolding read_bytes
read_bytes-cases n f = elim (Bool-cases (leb n (length f))) [
  | inr few ↦ inr (rw few refl)
  | inl enough ↦
      inl (take n f, drop n f, length-take n f (ground arith), sym (append-take-drop n f))
]

-- What is read of the constants is their part of a binary, or nothing is.
load_consts-cases :
    (s : Vm) (f : File)
    → AllocSucceeds s
    → AreBytes f
    → ((o : ℕ) × (ws : List ℕ) × (f' : File) × AreWords ws
        × (4 * length ws < word_mod)
        × (f ≡ put_word o (put_word (4 * length ws) (put_words ws f')))
        × AreBytes f')
      ⊎ ((t : Vm) × (load_consts f s ≡ ok none t))
unfolding load_consts fill_consts
load_consts-cases s f alloc h = elim (read_uint32-cases f h) [
  | inr e ↦ inr (s, rw e refl)
  | inl (o, f₁, _, e₁, h₁, got₁) ↦ elim (read_uint32-cases f₁ h₁) [
    | inr e ↦ inr (s, rw (got₁, e) refl)
    | inl (n, f₂, lt, e₂, h₂, got₂) ↦
        let t = record s { cpu = record (s.cpu) { const_mem_size = n } } in
        elim (Bool-cases (n % 4 == 0)) [
          | inr odd ↦ inr (t, rw (got₁, got₂, swap_uint32-raw n lt, odd) refl)
          | inl even ↦ elim (read_words-cases (n / 4) f₂ h₂) [
            | inr e ↦ inr (
              record t { cpu = record (t.cpu) { const_block = live } },
              rw (got₁, got₂, swap_uint32-raw n lt, even, alloc-AllocSucceeds t alloc, e) refl,
            )
            | inl (ws, f₃, count, words, e₃, h₃) ↦
                let size : n ≡ 4 * length ws = ground (arith, count, even) in
                inl (
                  o,
                  ws,
                  f₃,
                  words,
                  omega (arith, size, lt),
                  e₁ ∙ ap (put_word o) (e₂ ∙ rw (size, e₃) refl),
                  h₃,
                )
          ]
        ]
  ]
]

load_code-cases :
    (s : Vm) (f : File)
    → AllocSucceeds s
    → AreBytes f
    → ((o : ℕ) × (bs : List ℕ) × (f' : File) × (length bs < word_mod)
        × (f ≡ put_word o (put_word (length bs) (bs ++ f'))))
      ⊎ ((t : Vm) × (load_code f s ≡ ok none t))
unfolding load_code fill_code
load_code-cases s f alloc h = elim (read_uint32-cases f h) [
  | inr e ↦ inr (s, rw e refl)
  | inl (o, f₁, _, e₁, h₁, got₁) ↦ elim (read_uint32-cases f₁ h₁) [
    | inr e ↦ inr (s, rw (got₁, e) refl)
    | inl (n, f₂, lt, e₂, h₂, got₂) ↦
        let t = record s { cpu = record (s.cpu) { code_mem_size = n } } in
        elim (read_bytes-cases n f₂) [
          | inr e ↦ inr (
            record t { cpu = record (t.cpu) { code_block = live } },
            rw (got₁, got₂, swap_uint32-raw n lt, alloc-AllocSucceeds t alloc, e) refl,
          )
          | inl (bs, f₃, count, e₃) ↦ inl (
            o,
            bs,
            f₃,
            omega (arith, count, lt),
            e₁ ∙ ap (put_word o) (e₂ ∙ rw (sym count, e₃) refl),
          )
        ]
  ]
]

-- A file that is a binary, with its parts.
pub record IsBinary (f : File) : Type 0 where
  pub origin₁ : ℕ
  pub origin₂ : ℕ
  pub consts : List ℕ
  pub code : List ℕ
  pub rest : File
  pub words : AreWords consts
  pub consts_fit : 4 * length consts < word_mod
  pub code_fits : length code < word_mod
  pub parts : f ≡ binary origin₁ origin₂ consts code rest

accepted :
    (s : Vm) (f : File)
    → AllocSucceeds s
    → (k : IsBinary f) → load_bin (some f) s ≡ ok true (with_code (with_consts s k.consts) k.code)
accepted s f alloc k = rw k.parts (
    load_bin-binary s k.origin₁ k.origin₂ k.consts k.code k.rest alloc k.words k.consts_fit
      k.code_fits)

-- A binary is accepted, so what was refused is none.
refused :
    (s : Vm) (f : File) {t : Vm} → AllocSucceeds s → load_bin (some f) s ≡ ok false t → ¬ IsBinary f
refused s f alloc e k = let e' = accepted s f alloc k in cc

-- A file whose magic number is not there, or one of whose parts cannot be read, is refused.
load_bin-part :
    (s : Vm) (f : File)
    → AllocSucceeds s
    → AreBytes f
    → IsBinary f ⊎ ((t : Vm) × (load_bin (some f) s ≡ ok false t))
unfolding load_bin load_parts check_file_signature
load_bin-part s f alloc h = elim (read_uint32-cases f h) [
  | inr e ↦ inr (s, rw e refl)
  | inl (m, f₁, lt, e₁, h₁, got₁) ↦ elim (Bool-cases (m == magic_number)) [
    | inr other ↦ inr (s, rw (got₁, swap_uint32-raw m lt, other) refl)
    | inl magic ↦
        let number : m ≡ magic_number = ground arith in
        elim (load_consts-cases s f₁ alloc h₁) [
          | inr (t, e) ↦ inr (t, rw (got₁, swap_uint32-raw m lt, magic, e) refl)
          | inl (o₁, ws, f₂, words, fit, e₂, h₂) ↦
              let loaded : load_consts f₁ s ≡ ok (some f₂) (with_consts s ws) =
                rw e₂ (load_consts-put_words s alloc o₁ f₂ ws words fit) in
              elim (load_code-cases (with_consts s ws) f₂ alloc h₂) [
                | inr (t, e) ↦ inr (t, rw (got₁, swap_uint32-raw m lt, magic, loaded, e) refl)
                | inl (o₂, bs, f₃, fits, e₃) ↦ inl (record {
                  origin₁ = o₁;
                  origin₂ = o₂;
                  consts = ws;
                  code = bs;
                  rest = f₃;
                  words = words;
                  consts_fit = fit;
                  code_fits = fits;
                  parts = rw (e₁, number, e₂, e₃) refl;
                })
              ]
        ]
  ]
]

-- On any file of bytes, where no allocation fails, `load_bin` returns, and there are two ways: the
-- file is a well-formed binary, the result is true and the memories hold its constants and its
-- code; or the result is false, and the file is no well-formed binary.
pub load_bin-accepts :
    (s : Vm) (f : File)
    → AllocSucceeds s
    → AreBytes f
    → ((k : IsBinary f) × (load_bin (some f) s
          ≡ ok true (with_code (with_consts s k.consts) k.code)))
      ⊎ (((t : Vm) × (load_bin (some f) s ≡ ok false t)) × (¬ IsBinary f))
load_bin-accepts s f alloc h = elim (load_bin-part s f alloc h) [
  | inl k ↦ inl (k, accepted s f alloc k)
  | inr (t, e) ↦ inr ((t, e), refused s f alloc e)
]
