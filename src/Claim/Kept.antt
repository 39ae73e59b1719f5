-- ===== src/Claim/Kept.antt =====
-- The operations on mapped arrays leave the program alone.
use integer_java_virtual_mac.Base.{ℕ, zero, suc, ◌≡◌, refl, length, leb, ◌==◌}
use integer_java_virtual_mac.Machine.{Vm, MArr}
use integer_java_virtual_mac.Machine.Stays.{
  Stays, Stays-if, Stays-bind, stays, gives_up, fixed, stays_rules, alloc-Stays,
}
use integer_java_virtual_mac.Marr.{
  Global, no_slots, arr_mem, net_conn, marr_check_marked, marr_get_element, marr_remove_element,
}
use integer_java_virtual_mac.Collector.Kept.{arr_gc-Stays}
use integer_java_virtual_mac.Claim.{
  count_creation, get_free_index, marr_add_element, resize_retry, marr_resize, marr_init,
}

count_creation-Stays : (s : Vm) → Stays (fixed s) (count_creation s)
unfolding count_creation
count_creation-Stays s =
    Stays-if (fixed s) (leb 100 s.element_creations)
      (Stays-bind (fixed s) _ (arr_gc-Stays (record s { element_creations = 0 })) λ a t. stays refl)
      (stays refl)

-- A field of the machine that is no part of the program.
abbrev pub IsBeside : {A : Type 0} → Global A → Type 0
IsBeside {A} g = (m : MArr A) (s : Vm) → fixed (g.put m s) ≡ fixed s

module _ {A : Type 0} (g : Global A) (beside : IsBeside g) where
  get_free_index-Stays : (s : Vm) → Stays (fixed s) (get_free_index g s)
  unfolding get_free_index
  get_free_index-Stays s = search (stays_rules, count_creation-Stays)

  pub marr_add_element-Stays : (a : A) (s : Vm) → Stays (fixed s) (marr_add_element g a s)
  unfolding marr_add_element
  marr_add_element-Stays a s = search (stays_rules, beside, get_free_index-Stays)

  resize_retry-Stays : (fuel n : ℕ) (s : Vm) → Stays (fixed s) (resize_retry g fuel n s)
  unfolding resize_retry
  resize_retry-Stays zero n s = search stays_rules
  resize_retry-Stays (suc fuel) n s =
      search (stays_rules, beside, alloc-Stays, arr_gc-Stays, resize_retry-Stays fuel) depth 20

  pub marr_resize-Stays : (n : ℕ) (s : Vm) → Stays (fixed s) (marr_resize g n s)
  unfolding marr_resize
  marr_resize-Stays n s = resize_retry-Stays (suc (length s.heap_answers)) n s

  pub marr_init-Stays : (n : ℕ) (s : Vm) → Stays (fixed s) (marr_init g n s)
  unfolding marr_init
  marr_init-Stays n s =
      Stays-bind (fixed s) _ (Stays-if (fixed s) (n == 0) gives_up (stays (beside no_slots s)))
        λ _ t. marr_resize-Stays n t

  pub marr_check_marked-Stays : (i : ℕ) (s : Vm) → Stays (fixed s) (marr_check_marked g i s)
  unfolding marr_check_marked
  marr_check_marked-Stays i s = search stays_rules

  pub marr_get_element-Stays : (i : ℕ) (s : Vm) → Stays (fixed s) (marr_get_element g i s)
  unfolding marr_get_element
  marr_get_element-Stays i s = search stays_rules

  pub marr_remove_element-Stays : (i : ℕ) (s : Vm) → Stays (fixed s) (marr_remove_element g i s)
  unfolding marr_remove_element
  marr_remove_element-Stays i s = search (stays_rules, beside)

-- The two mapped arrays of the machine.
abbrev pub arr_mem-IsBeside : IsBeside arr_mem
arr_mem-IsBeside m s = refl

abbrev pub net_conn-IsBeside : IsBeside net_conn
net_conn-IsBeside m s = refl
