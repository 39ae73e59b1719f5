-- ===== src/Collector/Mark.antt =====
-- The marking phase of src/array.c: what is marked, and that marking stays inside the heap.
use integer_java_virtual_mac.Base.{
  ℕ, zero, suc, ◌+◌, ◌≤◌, ◌<◌, ◌≡◌, refl, Bool, true, false, ◌&&◌, ◌||◌, inl, inr, ◌==◌, some, ltb,
  if◌then◌else◌, Bool-cases, le→leb, lt→leb, lt→ltb, arith,
}
use native.Mathlib.Decide.{dec_le}
use integer_java_virtual_mac.Refs.{arr_tag, ref_to_index, is_ref}
use integer_java_virtual_mac.Machine.{
  Vm, MArr, Block, Error, bad_map_index, Ends, returns, exits, Ends-bind, Ends-mono, read_stack,
  pure, ok,
}
use integer_java_virtual_mac.Marr.{arr_mem, marr_check_marked, marr_get_element}
use integer_java_virtual_mac.Collector.{
  Marks, mark_word, mark_stack, read_cell, mark_elements, deref, mark_slot, mark_children,
  stack_rounds, mark_arrays,
}

-- A slot in use holds a block with one cell more than its count.
pub record IsArray (m : MArr Block) (i : ℕ) : Type 0 where
  pub block : Block
  pub held : m.values i ≡ some block
  pub allocated : block.allocated ≡ block.cells 0 + 1

abbrev pub IsHeap : MArr Block → Type 0
IsHeap m = (i : ℕ) → m.map i ≡ true → (i < m.size) × IsArray m i

-- The word is a reference to the array in slot `j`, which is in use.
abbrev pub refers : Vm → ℕ → ℕ → Bool
refers s w j = is_ref arr_tag w && (ref_to_index w == j) && s.arr_mem.map j

-- A word that the marking phase looks at: one below the top of the stack, or an element of an
-- array.
pub data Mentioned (s : Vm) (w : ℕ) : Type 0 where
  on_stack : (i : ℕ) → i < stack_rounds s → s.cpu.stack i ≡ w → Mentioned s w
  in_array :
      (i : ℕ) (b : Block) (e : ℕ)
      → s.arr_mem.map i ≡ true
      → s.arr_mem.values i ≡ some b
      → 0 < e
      → e < b.allocated
      → b.cells e ≡ w
      → Mentioned s w

-- A reference beyond the last slot, among the words of `P`, ends the machine; marking changes
-- nothing.
abbrev pub BadIndexIn : (ℕ → Type 0) → Vm → Error → Vm → Type 0
BadIndexIn P s e t =
    (e ≡ bad_map_index)
    × (t ≡ s)
    × ((w : ℕ) × P w × (is_ref arr_tag w ≡ true) × (s.arr_mem.size ≤ ref_to_index w))

abbrev pub BadMapIndex : Vm → Error → Vm → Type 0
BadMapIndex s = BadIndexIn (Mentioned s) s

abbrev pub Marked : Vm → Marks → (ℕ → Bool) → Marks → Vm → Type 0
Marked s m new m' t = (t ≡ s) × ((j : ℕ) → m' j ≡ (m j || new j))

pub mark_word-Ends :
    (P : ℕ → Type 0) (s : Vm) (w : ℕ) (m : Marks)
    → P w
    → Ends (Marked s m (refers s w)) (BadIndexIn P s) (mark_word w m s)
unfolding mark_word marr_check_marked
mark_word-Ends P s w m p = elim (Bool-cases (is_ref arr_tag w)) [
  | inl ref ↦ elim (dec_le s.arr_mem.size (ref_to_index w)) [
    | yes out ↦ rw (ref, le→leb _ _ out) (exits (refl, refl, (w, p, ref, out)))
    | no inside ↦
        rw (ref, lt→leb s.arr_mem.size (ref_to_index w) (omega arith))
          (returns (refl, λ j. ground arith))
  ]
  | inr other ↦ rw other (returns (refl, λ j. ground arith))
]

-- One of the `n` words from index `i` of the stack refers to slot `j`.
unfoldable pub stack_refers : Vm → ℕ → ℕ → ℕ → Bool
stack_refers s zero i j = false
stack_refers s (suc n) i j = refers s (s.cpu.stack i) j || stack_refers s n (i + 1) j

mark_stack-Ends :
    (s : Vm) (n i : ℕ) (m : Marks)
    → i + n ≤ s.cpu.stack_size
    → i + n ≤ stack_rounds s
    → Ends (Marked s m (stack_refers s n i)) (BadMapIndex s) (mark_stack n i m s)
unfolding mark_stack stack_refers read_stack
mark_stack-Ends s zero i m fits below = returns (refl, λ j. ground arith)
mark_stack-Ends s (suc n) i m fits below = rw (lt→ltb i s.cpu.stack_size (omega arith)) (
    Ends-bind (mark_word-Ends (Mentioned s) s (s.cpu.stack i) m (on_stack i (omega arith) refl))
      λ m' t (e, new). rw e (
        Ends-mono (mark_stack-Ends s n (i + 1) m' (omega arith) (omega arith))
          λ m'' u (e', new'). (e', λ j. ground (arith, new j, new' j))))

-- Only slots in use are marked.
abbrev pub InUse : Vm → Marks → Type 0
InUse s m = (j : ℕ) → m j ≡ true → s.arr_mem.map j ≡ true

-- The block of slot `own` refers to slot `j` only if these are the same.
abbrev Spares : Vm → Block → ℕ → ℕ → Type 0
Spares s b own j = (e : ℕ) → e < b.allocated → refers s (b.cells e) j ≡ true → own ≡ j

-- Marks stay, and slot `j` stays unmarked if its `spared` hypothesis holds.
record Follows (s : Vm) (spared : ℕ → Type 0) (m m' : Marks) : Type 0 where
  keeps : (j : ℕ) → m j ≡ true → m' j ≡ true
  uses : InUse s m → InUse s m'
  spares : (j : ℕ) → spared j → m j ≡ false → m' j ≡ false

abbrev Followed : Vm → (ℕ → Type 0) → Marks → Marks → Vm → Type 0
Followed s spared m m' t = (t ≡ s) × Follows s spared m m'

Follows-refl : (s : Vm) (P : ℕ → Type 0) (m : Marks) → Follows s P m m
Follows-refl s P m = record { keeps = λ j h. h; uses = λ h. h; spares = λ j p h. h }

Follows-trans :
    (s : Vm) (P : ℕ → Type 0) (m₁ m₂ m₃ : Marks)
    → Follows s P m₁ m₂
    → Follows s P m₂ m₃
    → Follows s P m₁ m₃
Follows-trans s P m₁ m₂ m₃ f g = record {
  keeps = λ j h. g.keeps j (f.keeps j h);
  uses = λ h. g.uses (f.uses h);
  spares = λ j p h. g.spares j p (f.spares j p h);
}

-- One element.
element-Ends :
    (s : Vm) (b : Block) (own i : ℕ) (m : Marks)
    → i < b.allocated
    → Mentioned s (b.cells i)
    → Ends (Followed s (Spares s b own) m) (BadMapIndex s) (
        (if is_ref arr_tag (b.cells i) && (ref_to_index (b.cells i) == own)
            then pure m
            else mark_word (b.cells i) m)
          s)
element-Ends s b own i m h mentioned =
    elim (Bool-cases (is_ref arr_tag (b.cells i) && (ref_to_index (b.cells i) == own))) [
      | inl itself ↦ rw itself (returns (refl, Follows-refl s _ m))
      | inr other ↦ rw other (
          Ends-mono (mark_word-Ends (Mentioned s) s (b.cells i) m mentioned) λ m' t (e, new). (
            e,
            record {
              keeps = λ j p. ground (arith, new j);
              uses = λ u j p. ground (arith, new j, u j);
              spares = λ j p q. ground (arith, new j, p i);
            },
          ))
    ]

mark_elements-Ends :
    (s : Vm) (b : Block) (own n i : ℕ) (m : Marks)
    → i + n ≤ b.allocated
    → 0 < i
    → s.arr_mem.map own ≡ true
    → s.arr_mem.values own ≡ some b
    → Ends (Followed s (Spares s b own) m) (BadMapIndex s) (mark_elements b own n i m s)
unfolding mark_elements read_cell
mark_elements-Ends s b own zero i m fits pos used held = returns (refl, Follows-refl s _ m)
mark_elements-Ends s b own (suc n) i m fits pos used held =
    rw (lt→ltb i b.allocated (omega arith)) (
      Ends-bind
        (element-Ends s b own i m (omega arith) (in_array own b i used held pos (omega arith) refl))
        λ m' t (e, f). rw e (
          Ends-mono (mark_elements-Ends s b own n (i + 1) m' (omega arith) (omega arith) used held)
            λ m'' u (e', f'). (e', Follows-trans s _ m m' m'' f f')))

-- No array but the one in slot `j` itself refers to slot `j`.
abbrev pub Unreferred : Vm → ℕ → Type 0
Unreferred s j =
    (i : ℕ) (b : Block) → s.arr_mem.map i ≡ true → s.arr_mem.values i ≡ some b → Spares s b i j

pub marr_get_element-ok :
    (s : Vm) (i : ℕ)
    → i < s.arr_mem.size
    → s.arr_mem.map i ≡ true
    → marr_get_element arr_mem i s ≡ ok (s.arr_mem.values i) s
unfolding marr_get_element
marr_get_element-ok s i lt used = ground arith

mark_slot-Ends :
    (s : Vm) (i : ℕ) (m : Marks)
    → IsHeap s.arr_mem
    → InUse s m
    → Ends (Followed s (Unreferred s) m) (BadMapIndex s) (mark_slot i m s)
unfolding mark_slot deref read_cell
mark_slot-Ends s i m heap used = elim (Bool-cases (m i)) [
  | inl marked ↦
      let (lt, a) = heap i (used i marked) in
      let b = a.block in
      let some_cell : ltb 0 b.allocated ≡ true = lt→ltb _ _ (omega (arith, a.allocated)) in
      rw (marked, marr_get_element-ok s i lt (used i marked), a.held, some_cell)
        (Ends-mono
          (mark_elements-Ends s b i (b.cells 0) 1 m (omega (arith, a.allocated)) (omega arith)
            (used i marked) a.held)
          λ m' t (e, f). (
            e,
            record {
              keeps = f.keeps;
              uses = f.uses;
              spares = λ j p. f.spares j (p i b (used i marked) a.held);
            },
          ))
  | inr bare ↦ rw bare (returns (refl, Follows-refl s _ m))
]

mark_children-Ends :
    (s : Vm) (n i : ℕ) (m : Marks)
    → IsHeap s.arr_mem
    → InUse s m
    → Ends (Followed s (Unreferred s) m) (BadMapIndex s) (mark_children n i m s)
unfolding mark_children
mark_children-Ends s zero i m heap used = returns (refl, Follows-refl s _ m)
mark_children-Ends s (suc n) i m heap used =
    Ends-bind (mark_slot-Ends s i m heap used) λ m' t (e, f). rw e (
      Ends-mono (mark_children-Ends s n (i + 1) m' heap (f.uses used))
        λ m'' u (e', f'). (e', Follows-trans s _ m m' m'' f f'))

stack_refers-InUse : (s : Vm) (n i j : ℕ) → stack_refers s n i j ≡ true → s.arr_mem.map j ≡ true
unfolding stack_refers
stack_refers-InUse s zero i j h = cc
stack_refers-InUse s (suc n) i j h = ground (arith, stack_refers-InUse s n (i + 1) j)

-- What the marking phase finds.
pub record IsMarking (s : Vm) (m : Marks) : Type 0 where
  pub covers : (j : ℕ) → stack_refers s (stack_rounds s) 0 j ≡ true → m j ≡ true
  pub uses : InUse s m
  pub spares : (j : ℕ) → stack_refers s (stack_rounds s) 0 j ≡ false → Unreferred s j → m j ≡ false

pub mark_arrays-Ends :
    (s : Vm)
    → IsHeap s.arr_mem
    → stack_rounds s ≤ s.cpu.stack_size
    → Ends (λ m t. (t ≡ s) × IsMarking s m) (BadMapIndex s) (mark_arrays s)
unfolding mark_arrays
mark_arrays-Ends s heap fits =
    Ends-bind (mark_stack-Ends s (stack_rounds s) 0 (λ _. false) (omega arith) (omega arith))
      λ m t (e, new).
        let used : InUse s m =
          λ j h. stack_refers-InUse s (stack_rounds s) 0 j (ground (arith, new j)) in
        rw e (
          Ends-mono (mark_children-Ends s s.arr_mem.size 0 m heap used) λ m' u (e', f). (
            e',
            record {
              covers = λ j h. f.keeps j (ground (arith, new j));
              uses = f.uses used;
              spares = λ j h un. f.spares j un (ground (arith, new j));
            },
          ))
