-- ===== src/Machine/Words.antt =====
-- The values of the machine as 32-bit patterns: words in the registers, on the stack, in the
-- constants, in arrays and in the input, and bytes in the code.
use integer_java_virtual_mac.Base.{
  ℕ, ◌<◌, ◌≡◌, Bool, true, false, some, List, [], ◌∷◌, if◌then◌else◌, arith,
}
use integer_java_virtual_mac.Base.Word.{wrap, sub_word}
use integer_java_virtual_mac.Machine.State.{Vm, MArr, Block, Call}
use integer_java_virtual_mac.Machine.Command.{
  Error, Run, ok, exit, fault, out_of_fuel, M, and_then, alloc, read_stack, write_stack, system,
}

abbrev pub IsWord : ℕ → Type 0
IsWord n = n < 0x1_0000_0000

abbrev pub AreWords : List ℕ → Type 0
AreWords [] = Unit
AreWords (w ∷ ws) = IsWord w × AreWords ws

-- Every object in a slot has property `P`.
abbrev pub AllValues : {A : Type 0} → (A → Type 0) → MArr A → Type 0
AllValues {A} P m = (i : ℕ) (a : A) → m.values i ≡ some a → P a

abbrev pub HoldsWords : Block → Type 0
HoldsWords b = (j : ℕ) → IsWord (b.cells j)

pub record Words (pc sp fp lv nv : ℕ) (stack const code : ℕ → ℕ) (arrays : MArr Block)
    (input : List ℕ) : Type 0 where
  pub pc_word : IsWord pc
  pub sp_word : IsWord sp
  pub fp_word : IsWord fp
  pub lv_word : IsWord lv
  pub nv_word : IsWord nv
  pub stack_words : (i : ℕ) → IsWord (stack i)
  pub const_words : (i : ℕ) → IsWord (const i)
  pub code_bytes : (i : ℕ) → code i < 256
  pub arrays_words : AllValues HoldsWords arrays
  pub input_words : AreWords input

abbrev pub HasWords : Vm → Type 0
HasWords s =
    Words s.cpu.pc s.cpu.sp s.cpu.fp s.cpu.lv s.cpu.nv s.cpu.stack s.cpu.const_mem s.cpu.code_mem
      s.arr_mem s.in_file

-- A run whose result has `P` and whose machine holds words, if it returns.
pub data Typed {A : Type 0} (P : A → Type 0) : Run A → Type 0 where
  typed : {a : A} {t : Vm} → P a → HasWords t → Typed P (ok a t)
  typed_exit : {e : Error} {t : Vm} → Typed P (exit e t)
  typed_fault : Typed P fault
  typed_fuel : Typed P out_of_fuel

abbrev pub Any : {A : Type 0} → A → Type 0
Any a = Unit

module _ {A B : Type 0} {P : A → Type 0} {Q : B → Type 0} where
  pub Typed-bind :
      {r : Run A}
      → (k : A → M B) → Typed P r
      → ((a : A) (t : Vm) → P a → HasWords t → Typed Q (k a t))
      → Typed Q (and_then r k)
  Typed-bind k (typed p h) next = next _ _ p h
  Typed-bind k typed_exit next = typed_exit
  Typed-bind k typed_fault next = typed_fault
  Typed-bind k typed_fuel next = typed_fuel

module _ {A : Type 0} {P : A → Type 0} where
  pub Typed-if : (b : Bool) {x y : Run A} → Typed P x → Typed P y → Typed P (if b then x else y)
  Typed-if true l r = l
  Typed-if false l r = r

  pub Typed-if_at :
      (b : Bool) (s : Vm) (m k : M A)
      → Typed P (m s)
      → Typed P (k s)
      → Typed P ((if b then m else k) s)
  Typed-if_at true s m k l r = l
  Typed-if_at false s m k l r = r

-- That a result is of a kind may be forgotten.
pub Typed-any : {A : Type 0} {P : A → Type 0} {r : Run A} → Typed P r → Typed Any r
Typed-any (typed p h) = typed tt h
Typed-any typed_exit = typed_exit
Typed-any typed_fault = typed_fault
Typed-any typed_fuel = typed_fuel

-- A command whose result may be anything, and one whose result is a word.
pub Typed-then :
    {A B : Type 0} {Q : B → Type 0} {r : Run A}
    → (k : A → M B) → Typed Any r
    → ((a : A) (t : Vm) → HasWords t → Typed Q (k a t))
    → Typed Q (and_then r k)
Typed-then k h next = Typed-bind k h λ a t p w. next a t w

pub Typed-word :
    {B : Type 0} {Q : B → Type 0} {r : Run ℕ}
    → (k : ℕ → M B) → Typed IsWord r
    → ((a : ℕ) (t : Vm) → IsWord a → HasWords t → Typed Q (k a t))
    → Typed Q (and_then r k)
Typed-word k h next = Typed-bind k h next

pub wrap-IsWord : (n : ℕ) → IsWord (wrap n)
wrap-IsWord n = omega arith

pub sub_word-IsWord : (a b : ℕ) → IsWord (sub_word a b)
sub_word-IsWord a b = omega arith

pub ruleset typed_rules = (
  Typed-then, Typed-word, Typed-if, Typed-if_at, typed, typed_exit, typed_fault, typed_fuel, tt,
  wrap-IsWord, sub_word-IsWord,
)

-- Registers written anew.
module _ (s : Vm) (k : ℕ) (w : IsWord k) (h : HasWords s) where
  pub with_pc-HasWords : HasWords (record s { cpu = record (s.cpu) { pc = k } })
  with_pc-HasWords = record {
    pc_word = w;
    sp_word = h.sp_word;
    fp_word = h.fp_word;
    lv_word = h.lv_word;
    nv_word = h.nv_word;
    stack_words = h.stack_words;
    const_words = h.const_words;
    code_bytes = h.code_bytes;
    arrays_words = h.arrays_words;
    input_words = h.input_words;
  }

  pub with_sp-HasWords : HasWords (record s { cpu = record (s.cpu) { sp = k } })
  with_sp-HasWords = record {
    pc_word = h.pc_word;
    sp_word = w;
    fp_word = h.fp_word;
    lv_word = h.lv_word;
    nv_word = h.nv_word;
    stack_words = h.stack_words;
    const_words = h.const_words;
    code_bytes = h.code_bytes;
    arrays_words = h.arrays_words;
    input_words = h.input_words;
  }

  pub with_fp-HasWords : HasWords (record s { cpu = record (s.cpu) { fp = k } })
  with_fp-HasWords = record {
    pc_word = h.pc_word;
    sp_word = h.sp_word;
    fp_word = w;
    lv_word = h.lv_word;
    nv_word = h.nv_word;
    stack_words = h.stack_words;
    const_words = h.const_words;
    code_bytes = h.code_bytes;
    arrays_words = h.arrays_words;
    input_words = h.input_words;
  }

  pub with_nv-HasWords : HasWords (record s { cpu = record (s.cpu) { nv = k } })
  with_nv-HasWords = record {
    pc_word = h.pc_word;
    sp_word = h.sp_word;
    fp_word = h.fp_word;
    lv_word = h.lv_word;
    nv_word = w;
    stack_words = h.stack_words;
    const_words = h.const_words;
    code_bytes = h.code_bytes;
    arrays_words = h.arrays_words;
    input_words = h.input_words;
  }

pub alloc-Typed : (s : Vm) → HasWords s → Typed Any (alloc s)
unfolding alloc
alloc-Typed s h = search typed_rules

pub read_stack-Typed : (i : ℕ) (s : Vm) → HasWords s → Typed IsWord (read_stack i s)
unfolding read_stack
read_stack-Typed i s h = search (typed_rules, h.stack_words)

pub write_stack-Typed : (i v : ℕ) (s : Vm) → IsWord v → HasWords s → Typed Any (write_stack i v s)
unfolding write_stack
write_stack-Typed i v s w h =
    Typed-if _
      (typed tt (record {
        pc_word = h.pc_word;
        sp_word = h.sp_word;
        fp_word = h.fp_word;
        lv_word = h.lv_word;
        nv_word = h.nv_word;
        stack_words = λ j. ground (arith, h.stack_words j);
        const_words = h.const_words;
        code_bytes = h.code_bytes;
        arrays_words = h.arrays_words;
        input_words = h.input_words;
      }))
      typed_fault

pub system-Typed : (c : Call) (s : Vm) → HasWords s → Typed Any (system c s)
unfolding system
system-Typed c s h = search typed_rules
