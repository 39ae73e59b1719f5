-- ===== src/Cpu/Sound.antt =====
-- The operations of src/cpu.c keep the invariant of the mapped arrays. `octuple_stack_size` has
-- fuel enough, and so has the loop of `stack_push`.
use mathlib.Core.Path.{subst}
use integer_java_virtual_mac.Base.{
  ℕ, zero, suc, ◌*◌, ◌<◌, ◌≤◌, ◌≡◌, refl, Bool, false, ◌||◌, length, inl, inr, Bool-cases, ltb,
  ◌==◌, if◌then◌else◌, arith,
}
use integer_java_virtual_mac.Base.Word.{slt}
use integer_java_virtual_mac.Machine.{
  Vm, Cpu, Error, fault, M, and_then, pure, no_memory, Run, ok, exit, alloc, answer, later_answers,
}
use integer_java_virtual_mac.Marr.Slots.{HasObjects}
use integer_java_virtual_mac.Marr.Sound.{
  Sound, Sound-if_at, sound, sound_exit, sound_fault, sound_rules, read_stack-Sound,
  write_stack-Sound,
}
use integer_java_virtual_mac.Collector.Sound.{here, Within, arr_gc-Within}
use integer_java_virtual_mac.Claim.Sound.{shorter_after_one}
use integer_java_virtual_mac.Cpu.{
  octuple_retry, octuple_stack_size, enlarge, enlarge_rounds, stack_push, stack_pop, get_constant,
  get_local_variable, update_local_variable, jump,
}

pub stack_pop-Sound : (s : Vm) → HasObjects s → Sound HasObjects (stack_pop s)
unfolding stack_pop
stack_pop-Sound s h = search (sound_rules, read_stack-Sound)

pub get_constant-Sound : (i : ℕ) (s : Vm) → HasObjects s → Sound HasObjects (get_constant i s)
unfolding get_constant
get_constant-Sound i s h = search sound_rules

pub get_local_variable-Sound :
    (i : ℕ) (s : Vm) → HasObjects s → Sound HasObjects (get_local_variable i s)
unfolding get_local_variable
get_local_variable-Sound i s h = search (sound_rules, read_stack-Sound)

pub update_local_variable-Sound :
    (v i : ℕ) (s : Vm) → HasObjects s → Sound HasObjects (update_local_variable v i s)
unfolding update_local_variable
update_local_variable-Sound v i s h = search (sound_rules, write_stack-Sound)

pub jump-Sound : (offset : ℕ) (s : Vm) → HasObjects s → Sound HasObjects (jump offset s)
unfolding jump
jump-Sound offset s h = search sound_rules

-- A growth of the stack from `c` words that returns: `c` was not 0 and below the limit, and eight
-- times as many words are there.
data Grows (c : ℕ) : Run Bool → Type 0 where
  grows :
      {b : Bool} {t : Vm}
      → HasObjects t
      → 0 < c
      → c ≤ 0x800_0000
      → t.cpu.stack_size ≡ c * 8
      → Grows c (ok b t)
  grows_exit : {e : Error} {t : Vm} → HasObjects t → Grows c (exit e t)
  grows_fault : Grows c fault

-- The collection after a failed allocation leaves the size of the stack alone.
retry-Grows :
    (retry : M Bool) (c : Cpu) (n : ℕ) {r : Run ℕ}
    → Sound (Within c n) r
    → ((t : Vm) → Within c n t → Grows c.stack_size (retry t))
    → Grows c.stack_size (and_then r λ freed. if freed == 0 then exit no_memory else retry)
retry-Grows retry c n (sound {a} {t} w) next = elim (Bool-cases (a == 0)) [
  | inl none_freed ↦ rw none_freed (grows_exit w.objects)
  | inr freed ↦ rw freed (next t w)
]
retry-Grows retry c n (sound_exit w) next = grows_exit w.objects
retry-Grows retry c n sound_fault next = grows_fault

octuple_retry-Grows :
    (fuel : ℕ) (s : Vm)
    → HasObjects s
    → length s.heap_answers < fuel
    → Grows s.cpu.stack_size (octuple_retry fuel s)
unfolding octuple_retry alloc
octuple_retry-Grows zero s h enough = absurd (omega arith)
octuple_retry-Grows (suc fuel) s h enough =
    let c = s.cpu.stack_size in
    let bs = s.heap_answers in
    elim (Bool-cases (ltb 4294967296 (c * 4 * 8) || c * 4 * 8 == 0)) [
      | inl limit ↦ rw limit (grows_exit h)
      | inr below ↦ elim (Bool-cases (answer bs)) [
        | inl room ↦ rw (below, room) (grows h (ground arith) (ground arith) (ground arith))
        | inr failed ↦
            let u = record s { heap_answers = later_answers bs } in
            rw (below, failed)
              (retry-Grows (octuple_retry fuel) u.cpu (length u.heap_answers)
                (arr_gc-Within u.cpu (length u.heap_answers) u (here u h))
                λ t w.
                  let grown : Grows t.cpu.stack_size (octuple_retry fuel t) =
                    octuple_retry-Grows fuel t w.objects
                      (omega (arith, w.few_answers, shorter_after_one bs failed)) in
                  subst (λ k. Grows k.stack_size (octuple_retry fuel t)) w.same_cpu grown)
      ]
    ]

-- The words of a stack of `c` after `n` growths.
abbrev grown_by : ℕ → ℕ → ℕ
grown_by zero c = c
grown_by (suc n) c = grown_by n (c * 8)

-- A stack that is not empty passes the limit of `octuple_stack_size` within `n` growths.
abbrev Passes : ℕ → ℕ → Type 0
Passes n c = 0 < c → 0x800_0000 < grown_by n c

-- The loop after a growth from `c` words.
enlarge-Grows :
    (n c : ℕ) {r : Run Bool} (loop : M Bool)
    → Passes n c
    → Grows c r
    → ((m : ℕ)
        → n ≡ suc m
        → (t : Vm) → HasObjects t
        → Passes m t.cpu.stack_size
        → Sound HasObjects (loop t))
    → Sound HasObjects (and_then r λ grown. if grown then loop else pure false)
enlarge-Grows zero c loop p (grows h pos small e) next = absurd (omega (arith, p pos))
enlarge-Grows (suc m) c loop p (grows {b} {t} h pos small e) next =
    Sound-if_at b t loop (pure false) (next m refl t h (rw e λ _. p pos)) (sound h)
enlarge-Grows n c loop p (grows_exit h) next = sound_exit h
enlarge-Grows n c loop p grows_fault next = sound_fault

enlarge-Sound :
    (n : ℕ) (s : Vm)
    → HasObjects s
    → Passes n s.cpu.stack_size
    → Sound HasObjects (enlarge (suc n) s)
unfolding enlarge octuple_stack_size
enlarge-Sound zero s h p = elim (Bool-cases (slt s.cpu.sp s.cpu.stack_size)) [
  | inl room ↦ rw room (sound h)
  | inr full ↦ rw full (
      enlarge-Grows zero s.cpu.stack_size (enlarge zero) p
        (octuple_retry-Grows (suc (length s.heap_answers)) s h (omega arith))
        λ m e. absurd (omega arith))
]
enlarge-Sound (suc n) s h p = elim (Bool-cases (slt s.cpu.sp s.cpu.stack_size)) [
  | inl room ↦ rw room (sound h)
  | inr full ↦ rw full (
      enlarge-Grows (suc n) s.cpu.stack_size (enlarge (suc n)) p
        (octuple_retry-Grows (suc (length s.heap_answers)) s h (omega arith))
        λ m e t k passes.
          let e' : m ≡ n = omega arith in
          enlarge-Sound n t k (subst (λ j. Passes j t.cpu.stack_size) e' passes))
]

rounds-Sound : (s : Vm) → HasObjects s → Sound HasObjects (enlarge enlarge_rounds s)
rounds-Sound s h = enlarge-Sound 11 s h λ pos. omega arith

pub stack_push-Sound : (e : ℕ) (s : Vm) → HasObjects s → Sound HasObjects (stack_push e s)
unfolding stack_push
stack_push-Sound e s h = search (sound_rules, write_stack-Sound, rounds-Sound)
