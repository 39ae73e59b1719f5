-- ===== src/Arrays/Words.antt =====
-- The operations on arrays keep the machine's values words, and give words.
use integer_java_virtual_mac.Base.{ℕ, zero, suc, ◌*◌, ◌≡◌, refl, Option, none, some, length, arith}
use integer_java_virtual_mac.Base.Word.{wrap}
use integer_java_virtual_mac.Base.Bits.{bit_or-lt}
use integer_java_virtual_mac.Refs.{arr_tag, index_to_ref}
use integer_java_virtual_mac.Machine.{Vm, Block, M, Run, and_then, update}
use integer_java_virtual_mac.Machine.Words.{
  IsWord, HasWords, HoldsWords, Typed, Any, Typed-if, Typed-bind, typed, typed_exit, typed_fault,
  typed_fuel, typed_rules, alloc-Typed,
}
use integer_java_virtual_mac.Marr.{arr_mem, marr_get_element}
use integer_java_virtual_mac.Collector.{deref, read_cell}
use integer_java_virtual_mac.Claim.Words.{
  arr_gc-Typed, arr_mem-IsTyped, marr_add_element-Typed, marr_resize-Typed, marr_init-Typed,
  AllValues-write, HasWords-arrays,
}
use integer_java_virtual_mac.Arrays.{
  init_if_needed, store_element, arr_store, new_block, create_retry, arr_create, block_of,
  arr_check_bounds, arr_get, write_cell, arr_set,
}

-- A reference is a word.
pub index_to_ref-IsWord : (tag i : ℕ) → IsWord tag → IsWord (index_to_ref tag i)
unfolding index_to_ref
index_to_ref-IsWord tag i w = bit_or-lt 32 tag (wrap (i * 16)) w (omega arith)

ruleset slot_rules =
    (typed_rules, arr_mem-IsTyped, marr_add_element-Typed, marr_resize-Typed, marr_init-Typed)

init_if_needed-Typed : (s : Vm) → HasWords s → Typed Any (init_if_needed s)
unfolding init_if_needed
init_if_needed-Typed s h = search slot_rules

store_element-Typed :
    (b : Block) → HoldsWords b → (s : Vm) → HasWords s → Typed Any (store_element b s)
unfolding store_element
store_element-Typed b w s h = search slot_rules depth 20

arr_store-Typed : (b : Block) → HoldsWords b → (s : Vm) → HasWords s → Typed IsWord (arr_store b s)
unfolding arr_store
arr_store-Typed b w s h =
    let ref : (i : ℕ) → IsWord (index_to_ref arr_tag i) =
      λ i. index_to_ref-IsWord arr_tag i (omega arith) in
    search (typed_rules, init_if_needed-Typed, store_element-Typed, ref) depth 20

new_block-HoldsWords : (n : ℕ) → IsWord n → HoldsWords (new_block n)
new_block-HoldsWords n w j = ground arith

create_retry-Typed :
    (fuel n : ℕ) → IsWord n → (s : Vm) → HasWords s → Typed IsWord (create_retry fuel n s)
unfolding create_retry
create_retry-Typed zero n w s h = typed_fuel
create_retry-Typed (suc fuel) n w s h =
    search
      (
        typed_rules,
        alloc-Typed,
        arr_gc-Typed,
        arr_store-Typed,
        new_block-HoldsWords,
        create_retry-Typed fuel,
      )
      depth 20

pub arr_create-Typed : (n : ℕ) (s : Vm) → IsWord n → HasWords s → Typed IsWord (arr_create n s)
unfolding arr_create
arr_create-Typed n s w h = create_retry-Typed (suc (length s.heap_answers)) n w s h

-- What a slot holds: NULL, or a block of words.
abbrev Held : Option Block → Type 0
Held o = (b : Block) → o ≡ some b → HoldsWords b

get_block-Typed : (i : ℕ) (s : Vm) → HasWords s → Typed Held (marr_get_element arr_mem i s)
unfolding marr_get_element
get_block-Typed i s h =
    Typed-if _ typed_exit (Typed-if _ (typed (λ b e. h.arrays_words i b e) h) typed_exit)

deref-Typed : (o : Option Block) → Held o → (s : Vm) → HasWords s → Typed HoldsWords (deref o s)
unfolding deref
deref-Typed none p s h = typed_fault
deref-Typed (some b) p s h = typed (p b refl) h

block_of-Typed :
    (o : Option Block) → Held o → (s : Vm) → HasWords s → Typed HoldsWords (block_of o s)
unfolding block_of
block_of-Typed none p s h = typed_exit
block_of-Typed (some b) p s h = typed (p b refl) h

read_cell-Typed :
    (b : Block) (i : ℕ) → HoldsWords b → (s : Vm) → HasWords s → Typed IsWord (read_cell b i s)
unfolding read_cell
read_cell-Typed b i w s h = search (typed_rules, w)

Typed-Held :
    {B : Type 0} {Q : B → Type 0} {r : Run (Option Block)}
    → (k : Option Block → M B) → Typed Held r
    → ((o : Option Block) (t : Vm) → Held o → HasWords t → Typed Q (k o t))
    → Typed Q (and_then r k)
Typed-Held k h next = Typed-bind k h next

Typed-block :
    {B : Type 0} {Q : B → Type 0} {r : Run Block}
    → (k : Block → M B) → Typed HoldsWords r
    → ((b : Block) (t : Vm) → HoldsWords b → HasWords t → Typed Q (k b t))
    → Typed Q (and_then r k)
Typed-block k h next = Typed-bind k h next

ruleset block_rules = (
  typed_rules, Typed-Held, Typed-block, get_block-Typed, deref-Typed, block_of-Typed,
  read_cell-Typed,
)

arr_check_bounds-Typed : (r i : ℕ) (s : Vm) → HasWords s → Typed Any (arr_check_bounds r i s)
unfolding arr_check_bounds
arr_check_bounds-Typed r i s h = search block_rules depth 20

pub arr_get-Typed : (r i : ℕ) (s : Vm) → HasWords s → Typed IsWord (arr_get r i s)
unfolding arr_get
arr_get-Typed r i s h = search (block_rules, arr_check_bounds-Typed) depth 20

write_cell-Typed :
    (slot : ℕ) (b : Block) (i v : ℕ)
    → HoldsWords b
    → IsWord v
    → (s : Vm) → HasWords s
    → Typed Any (write_cell slot b i v s)
unfolding write_cell
write_cell-Typed slot b i v w wv s h =
    let cells : HoldsWords (record b { cells = update b.cells i v }) = λ j. ground (arith, w j) in
    Typed-if _
      (typed tt (HasWords-arrays _ s (AllValues-write s.arr_mem slot _ cells h.arrays_words) h))
      typed_fault

pub arr_set-Typed : (r i v : ℕ) (s : Vm) → IsWord v → HasWords s → Typed Any (arr_set r i v s)
unfolding arr_set
arr_set-Typed r i v s w h = search (block_rules, arr_check_bounds-Typed, write_cell-Typed) depth 20
