-- ===== src/Arrays/Sound.antt =====
-- The operations on arrays keep the invariant of the mapped arrays, and `arr_create` has fuel
-- enough.
use integer_java_virtual_mac.Base.{ℕ, zero, suc, ◌<◌, refl, length, inl, inr, Bool-cases, arith}
use integer_java_virtual_mac.Base.Word.{sle}
use integer_java_virtual_mac.Machine.{Vm, Block, alloc, answer}
use integer_java_virtual_mac.Marr.Slots.{HasObjects, IsWhole}
use integer_java_virtual_mac.Marr.Sound.{
  Sound, sound_exit, Ends-Sound, sound_rules, arr_mem-IsSlots, marr_get_element-Sound,
}
use integer_java_virtual_mac.Collector.Sound.{retry-Sound}
use integer_java_virtual_mac.Claim.Sound.{
  shorter_after_one, marr_add_element-Sound, marr_resize-Sound, marr_init-Sound,
}
use integer_java_virtual_mac.Arrays.Safe.{arr_get-arr_set-Ends}
use integer_java_virtual_mac.Arrays.{
  init_if_needed, store_element, arr_store, new_block, create_retry, arr_create, arr_get, arr_set,
}

ruleset slot_rules = (
  sound_rules, arr_mem-IsSlots, marr_add_element-Sound, marr_resize-Sound, marr_init-Sound,
  marr_get_element-Sound,
)

init_if_needed-Sound : (s : Vm) → HasObjects s → Sound HasObjects (init_if_needed s)
unfolding init_if_needed
init_if_needed-Sound s h = search slot_rules

store_element-Sound :
    (b : Block) → IsWhole b → (s : Vm) → HasObjects s → Sound HasObjects (store_element b s)
unfolding store_element
store_element-Sound b whole s h = search slot_rules depth 20

arr_store-Sound :
    (b : Block) → IsWhole b → (s : Vm) → HasObjects s → Sound HasObjects (arr_store b s)
unfolding arr_store
arr_store-Sound b whole s h =
    search (sound_rules, init_if_needed-Sound, store_element-Sound) depth 20

create_retry-Sound :
    (fuel n : ℕ) (s : Vm)
    → HasObjects s
    → length s.heap_answers < fuel
    → Sound HasObjects (create_retry fuel n s)
unfolding create_retry alloc
create_retry-Sound zero n s h enough = absurd (omega arith)
create_retry-Sound (suc fuel) n s h enough = elim (Bool-cases (sle n 0)) [
  | inl bad ↦ rw bad (sound_exit h)
  | inr good ↦
      let bs = s.heap_answers in
      elim (Bool-cases (answer bs)) [
        | inl room ↦ rw (good, room) (arr_store-Sound (new_block n) refl _ h)
        | inr failed ↦
            rw (good, failed)
              (retry-Sound (create_retry fuel n) _ h λ t w.
                create_retry-Sound fuel n t w.objects
                  (omega (arith, w.few_answers, shorter_after_one bs failed)))
      ]
]

pub arr_create-Sound : (n : ℕ) (s : Vm) → HasObjects s → Sound HasObjects (arr_create n s)
unfolding arr_create
arr_create-Sound n s h = create_retry-Sound (suc (length s.heap_answers)) n s h (omega arith)

pub arr_get-Sound : (r i : ℕ) (s : Vm) → HasObjects s → Sound HasObjects (arr_get r i s)
arr_get-Sound r i s h =
    Ends-Sound ((arr_get-arr_set-Ends r i s h 0).0) (λ x t e. rw e h) (λ x t e. rw e h)

pub arr_set-Sound : (r i v : ℕ) (s : Vm) → HasObjects s → Sound HasObjects (arr_set r i v s)
arr_set-Sound r i v s h =
    Ends-Sound ((arr_get-arr_set-Ends r i s h v).1) (λ x t k. k) (λ x t e. rw e h)
