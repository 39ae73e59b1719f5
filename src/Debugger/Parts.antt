-- ===== src/Debugger/Parts.antt =====
-- How `cmd_decoder` of src/ijdb.c takes a line apart.
use mathlib.Core.List.{append-nil}
use integer_java_virtual_mac.Base.{
  ℕ, ◌≡◌, ◌≢◌, refl, ap, ◌∙◌, List, [], ◌∷◌, ◌++◌, length, if◌then◌else◌, ne→==, arith,
}
use integer_java_virtual_mac.Symbols.{Text}
use integer_java_virtual_mac.Debugger.{
  D, crash, tokens, close_part, reversed, codes, decode_line, decode_parts, exec_command,
  cmd_decoder, exec_break, exec_input, exec_file, exec_info,
}

-- A part of a line: bytes that are no spaces, at least one of them.
abbrev pub IsSolid : Text → Type 0
IsSolid [] = Unit
IsSolid (c ∷ t) = (c ≢ 32) × IsSolid t

abbrev pub AreParts : List Text → Type 0
AreParts [] = Unit
AreParts ([] ∷ ts) = ⊥
AreParts ((c ∷ t) ∷ ts) = IsSolid (c ∷ t) × AreParts ts

-- The parts with a space between each two.
abbrev pub join : Text → List Text → Text
join t [] = t
join t (u ∷ ts) = t ++ 32 ∷ join u ts

tokens-IsSolid :
    (t part rest : Text)
    → IsSolid t
    → tokens part (t ++ 32 ∷ rest) ≡ close_part (reversed t part) (tokens [] rest)
unfolding tokens
tokens-IsSolid [] part rest h = refl
tokens-IsSolid (c ∷ t) part rest (ne, h) = rw (ne→== c 32 ne) (tokens-IsSolid t (c ∷ part) rest h)

tokens-end : (t part : Text) → IsSolid t → tokens part t ≡ close_part (reversed t part) []
unfolding tokens
tokens-end [] part h = refl
tokens-end (c ∷ t) part (ne, h) = rw (ne→== c 32 ne) (tokens-end t (c ∷ part) h)

reversed-reversed : (t acc out : Text) → reversed (reversed t acc) out ≡ reversed acc (t ++ out)
reversed-reversed [] acc out = refl
reversed-reversed (c ∷ t) acc out = reversed-reversed t (c ∷ acc) out

close_part-reversed :
    (t acc : Text) (c : ℕ) (ts : List Text)
    → close_part (reversed t (c ∷ acc)) ts ≡ reversed (reversed t (c ∷ acc)) [] ∷ ts
close_part-reversed [] acc c ts = refl
close_part-reversed (e ∷ t) acc c ts = close_part-reversed t (c ∷ acc) e ts

-- A part that has come to its end.
close_part-whole :
    (c : ℕ) (t : Text) (ts : List Text) → close_part (reversed (c ∷ t) []) ts ≡ (c ∷ t) ∷ ts
close_part-whole c t ts =
    close_part-reversed t [] c ts
    ∙ ap (λ (u : Text). u ∷ ts) (reversed-reversed (c ∷ t) [] [] ∙ append-nil (c ∷ t))

-- The parts of a line that joins words by single spaces are the words, if each has a byte and none
-- has a space.
pub tokens-join : (t : Text) (ts : List Text) → AreParts (t ∷ ts) → tokens [] (join t ts) ≡ t ∷ ts
tokens-join [] ts h = absurd h
tokens-join (c ∷ t) [] (h, hs) = tokens-end (c ∷ t) [] h ∙ close_part-whole c t []
tokens-join (c ∷ t) (u ∷ ts) (h, hs) =
    tokens-IsSolid (c ∷ t) [] (join u ts) h
    ∙ close_part-whole c t (tokens [] (join u ts))
    ∙ ap (λ (us : List Text). (c ∷ t) ∷ us) (tokens-join u ts hs)

-- What a command of the debugger does where there is a spare byte for the 0 behind the copy of the
-- line.
abbrev pub if_spare : ℕ → D (Unit {0}) → D (Unit {0})
if_spare n m = λ d. if d.spare_byte n then m d else crash d

-- A line of a word and one more part.
cmd_decoder-two :
    (wides fuel c : ℕ) (w t : Text)
    → AreParts (w ∷ (c ∷ t) ∷ [])
    → cmd_decoder wides fuel (w ++ 32 ∷ c ∷ t)
      ≡ if_spare
          (length (w ++ 32 ∷ c ∷ t))
          (exec_command wides fuel (decode_line (w ++ 32 ∷ c ∷ t) w ((c ∷ t) ∷ [])))
unfolding cmd_decoder
cmd_decoder-two wides fuel c w t h =
    let line = w ++ 32 ∷ c ∷ t in
    ap (λ (ps : List Text). if_spare (length line) (decode_parts wides fuel line ps))
      (tokens-join w ((c ∷ t) ∷ []) h)

-- A line of one of the words `break`, `input`, `file` and `info`, a space, and an argument of at
-- least one byte without a space in it is carried out as that command with that argument, if the
-- compiler has left a byte behind the array into which the line is copied. If not the copy is
-- undefined behaviour.
pub cmd_decoder_lem :
    (wides fuel c : ℕ) (t : Text)
    → IsSolid (c ∷ t)
    → (cmd_decoder wides fuel (codes "break" ++ 32 ∷ c ∷ t)
        ≡ if_spare (length (codes "break" ++ 32 ∷ c ∷ t)) (exec_break (c ∷ t)))
      × (cmd_decoder wides fuel (codes "input" ++ 32 ∷ c ∷ t)
          ≡ if_spare (length (codes "input" ++ 32 ∷ c ∷ t)) (exec_input (c ∷ t)))
      × (cmd_decoder wides fuel (codes "file" ++ 32 ∷ c ∷ t)
          ≡ if_spare (length (codes "file" ++ 32 ∷ c ∷ t)) (exec_file (c ∷ t)))
      × (cmd_decoder wides fuel (codes "info" ++ 32 ∷ c ∷ t)
          ≡ if_spare (length (codes "info" ++ 32 ∷ c ∷ t)) (exec_info (c ∷ t)))
unfolding decode_line exec_command
cmd_decoder_lem wides fuel c t h = (
  cmd_decoder-two wides fuel c (codes "break") t (
    (
      λ e. omega arith,
      (λ e. omega arith, (λ e. omega arith, (λ e. omega arith, (λ e. omega arith, tt)))),
    ),
    (h, tt),
  ),
  cmd_decoder-two wides fuel c (codes "input") t (
    (
      λ e. omega arith,
      (λ e. omega arith, (λ e. omega arith, (λ e. omega arith, (λ e. omega arith, tt)))),
    ),
    (h, tt),
  ),
  cmd_decoder-two wides fuel c (codes "file") t
      ((λ e. omega arith, (λ e. omega arith, (λ e. omega arith, (λ e. omega arith, tt)))), (h, tt)),
  cmd_decoder-two wides fuel c (codes "info") t
      ((λ e. omega arith, (λ e. omega arith, (λ e. omega arith, (λ e. omega arith, tt)))), (h, tt)),
)
