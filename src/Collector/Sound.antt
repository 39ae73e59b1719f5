-- ===== src/Collector/Sound.antt =====
-- A collection of src/array.c keeps the invariant of the arrays, leaves the processor alone and
-- asks the allocator no more than once.
use integer_java_virtual_mac.Base.{
  true, false, refl, ℕ, zero, suc, ◌≤◌, ◌≡◌, ◌≢◌, Bool, List, [], ◌∷◌, length, Option, none, some,
  ◌==◌, if◌then◌else◌, arith,
}
use integer_java_virtual_mac.Machine.{
  Vm, Cpu, MArr, Block, Sock, Pointer, null, live, dangling, free_block, read_stack, alloc,
  later_answers, M, ◌>>=◌, exit, no_memory,
}
use integer_java_virtual_mac.Marr.{
  clear, arr_mem, marr_check_marked, marr_get_element, marr_remove_element,
}
use integer_java_virtual_mac.Marr.Slots.{Objects, HasObjects, Holds-clear}
use integer_java_virtual_mac.Marr.Sound.{
  Sound, Sound-then, Sound-if_at, Sound-if, Sound-mono, sound, sound_exit, sound_fault, sound_rules,
}
use integer_java_virtual_mac.Collector.{
  Marks, arr_remove, mark_word, mark_stack, read_cell, mark_elements, deref, mark_slot,
  mark_children, mark_arrays, sweep_slot, sweep_arrays, new_marks, arr_gc,
}

-- Processor `c`, at most `n` answers of the allocator to come, and the objects in their slots.
pub record Parts (c : Cpu) (n : ℕ) (cpu : Cpu) (answers : List Bool) (arrays : MArr Block)
    (socks : MArr Sock) (marks : Pointer) : Type 0 where
  pub same_cpu : cpu ≡ c
  pub few_answers : length answers ≤ n
  pub objects : Objects arrays socks marks cpu.const_block cpu.code_block cpu.stack_block

abbrev pub Within : Cpu → ℕ → Vm → Type 0
Within c n s = Parts c n s.cpu s.heap_answers s.arr_mem s.net_conn s.marked_arrays

-- An invariant that a question to the allocator, a slot emptied and new marks keep.
pub record IsCollectable (I : Vm → Type 0) : Type 0 where
  pub asks : (s : Vm) → I s → I (record s { heap_answers = later_answers s.heap_answers })
  pub clears : (i : ℕ) (s : Vm) → I s → I (arr_mem.put (clear s.arr_mem i) s)
  pub marks :
      (enough : Bool) (s : Vm)
      → I s
      → I (record s { marked_arrays = if enough then live else null })

module _ (I : Vm → Type 0) (k : IsCollectable I) where
  alloc-Keeps : (s : Vm) → I s → Sound I (alloc s)
  unfolding alloc
  alloc-Keeps s h = sound (k.asks s h)

  marr_remove_element-Keeps : (i : ℕ) (s : Vm) → I s → Sound I (marr_remove_element arr_mem i s)
  unfolding marr_remove_element
  marr_remove_element-Keeps i s h = Sound-if _ (sound_exit h) (sound (k.clears i s h))

  arr_remove-Keeps : (i : ℕ) (s : Vm) → I s → Sound I (arr_remove i s)
  unfolding arr_remove marr_get_element
  arr_remove-Keeps i s h = search (sound_rules, marr_remove_element-Keeps)

  mark_word-Keeps : (w : ℕ) (m : Marks) (s : Vm) → I s → Sound I (mark_word w m s)
  unfolding mark_word marr_check_marked
  mark_word-Keeps w m s h = search sound_rules

  read_stack-Keeps : (i : ℕ) (s : Vm) → I s → Sound I (read_stack i s)
  unfolding read_stack
  read_stack-Keeps i s h = search sound_rules

  mark_stack-Keeps : (k i : ℕ) (m : Marks) (s : Vm) → I s → Sound I (mark_stack k i m s)
  unfolding mark_stack
  mark_stack-Keeps zero i m s h = search sound_rules
  mark_stack-Keeps (suc k) i m s h =
      search (sound_rules, read_stack-Keeps, mark_word-Keeps, mark_stack-Keeps k)

  pub read_cell-Keeps : (b : Block) (i : ℕ) (s : Vm) → I s → Sound I (read_cell b i s)
  unfolding read_cell
  read_cell-Keeps b i s h = search sound_rules

  mark_elements-Keeps :
      (b : Block) (own k i : ℕ) (m : Marks) (s : Vm) → I s → Sound I (mark_elements b own k i m s)
  unfolding mark_elements
  mark_elements-Keeps b own zero i m s h = search sound_rules
  mark_elements-Keeps b own (suc k) i m s h =
      search (sound_rules, read_cell-Keeps, mark_word-Keeps, mark_elements-Keeps b own k)

  pub deref-Keeps : (o : Option Block) (s : Vm) → I s → Sound I (deref o s)
  unfolding deref
  deref-Keeps none s h = search sound_rules
  deref-Keeps (some b) s h = search sound_rules

  mark_slot-Keeps : (i : ℕ) (m : Marks) (s : Vm) → I s → Sound I (mark_slot i m s)
  unfolding mark_slot marr_get_element
  mark_slot-Keeps i m s h =
      search (sound_rules, deref-Keeps, read_cell-Keeps, mark_elements-Keeps) depth 10

  mark_children-Keeps : (k i : ℕ) (m : Marks) (s : Vm) → I s → Sound I (mark_children k i m s)
  unfolding mark_children
  mark_children-Keeps zero i m s h = search sound_rules
  mark_children-Keeps (suc k) i m s h = search (sound_rules, mark_slot-Keeps, mark_children-Keeps k)

  mark_arrays-Keeps : (s : Vm) → I s → Sound I (mark_arrays s)
  unfolding mark_arrays
  mark_arrays-Keeps s h = search (sound_rules, mark_stack-Keeps, mark_children-Keeps)

  sweep_slot-Keeps : (m : Marks) (i : ℕ) (s : Vm) → I s → Sound I (sweep_slot m i s)
  unfolding sweep_slot marr_check_marked
  sweep_slot-Keeps m i s h = search (sound_rules, arr_remove-Keeps) depth 10

  sweep_arrays-Keeps : (m : Marks) (k i : ℕ) (s : Vm) → I s → Sound I (sweep_arrays m k i s)
  unfolding sweep_arrays
  sweep_arrays-Keeps m zero i s h = search sound_rules
  sweep_arrays-Keeps m (suc k) i s h =
      search (sound_rules, sweep_slot-Keeps, sweep_arrays-Keeps m k) depth 10

  free_block-Keeps : (p : Pointer) (s : Vm) → I s → Sound I (free_block p s)
  unfolding free_block
  free_block-Keeps null s h = sound h
  free_block-Keeps live s h = sound h
  free_block-Keeps dangling s h = sound_fault

  new_marks-Keeps : (s : Vm) → I s → Sound I (new_marks s)
  unfolding new_marks
  new_marks-Keeps s h = search (sound_rules, alloc-Keeps, free_block-Keeps, k.marks) depth 10

  pub arr_gc-Keeps : (s : Vm) → I s → Sound I (arr_gc s)
  unfolding arr_gc
  arr_gc-Keeps s h = search (sound_rules, new_marks-Keeps, mark_arrays-Keeps, sweep_arrays-Keeps)

shorter : (bs : List Bool) (n : ℕ) → length bs ≤ n → length (later_answers bs) ≤ n
shorter [] n h = h
shorter (b ∷ bs) n h = omega arith

not_dangling : (b : Bool) → (if b then live else null) ≢ dangling
not_dangling true e = cc
not_dangling false e = cc

abbrev Within-IsCollectable : (c : Cpu) (n : ℕ) → IsCollectable (Within c n)
Within-IsCollectable c n = record {
  asks = λ s h. record {
    same_cpu = h.same_cpu;
    few_answers = shorter s.heap_answers n h.few_answers;
    objects = h.objects;
  };
  clears = λ i s h. record {
    same_cpu = h.same_cpu;
    few_answers = h.few_answers;
    objects = record {
      arrays_hold = Holds-clear s.arr_mem i h.objects.arrays_hold;
      socks_hold = h.objects.socks_hold;
      blocks = h.objects.blocks;
    };
  };
  marks = λ enough s h. record {
    same_cpu = h.same_cpu;
    few_answers = h.few_answers;
    objects = record {
      arrays_hold = h.objects.arrays_hold;
      socks_hold = h.objects.socks_hold;
      blocks = record {
        marks_left = not_dangling enough;
        const_left = h.objects.blocks.const_left;
        code_left = h.objects.blocks.code_left;
        stack_left = h.objects.blocks.stack_left;
      };
    };
  };
}

pub arr_gc-Within : (c : Cpu) (n : ℕ) (s : Vm) → Within c n s → Sound (Within c n) (arr_gc s)
arr_gc-Within c n = arr_gc-Keeps (Within c n) (Within-IsCollectable c n)

pub here : (s : Vm) → HasObjects s → Within s.cpu (length s.heap_answers) s
here s h = record { same_cpu = refl; few_answers = omega arith; objects = h }

pub arr_gc-Sound : (s : Vm) → HasObjects s → Sound HasObjects (arr_gc s)
arr_gc-Sound s h =
    Sound-mono (arr_gc-Within s.cpu (length s.heap_answers) s (here s h)) λ t w. w.objects

-- What all calls do that allocate: collect and try again, unless nothing was freed.
pub retry-Sound {ℓ} :
    {A : Type ℓ} (retry : M A) (s : Vm)
    → HasObjects s
    → ((t : Vm) → Within s.cpu (length s.heap_answers) t → Sound HasObjects (retry t))
    → Sound HasObjects ((arr_gc >>= λ freed. if freed == 0 then exit no_memory else retry) s)
retry-Sound retry s h next =
    Sound-then _ (arr_gc-Within s.cpu (length s.heap_answers) s (here s h)) (λ t w. w.objects)
      λ freed t w.
        Sound-if_at (freed == 0) t (exit no_memory) retry (sound_exit w.objects) (next t w)
