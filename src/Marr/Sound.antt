-- ===== src/Marr/Sound.antt =====
-- Calls that keep the invariant of the mapped arrays of src/marr.c and end, by whatever way out:
-- the calls of the model that take fuel are given enough.
use integer_java_virtual_mac.Base.{◌≡◌, refl, List, ℕ, Bool, true, false, if◌then◌else◌}
use integer_java_virtual_mac.Machine.{
  Vm, MArr, Error, Run, ok, exit, fault, M, and_then, alloc, read_stack, write_stack, system, Call,
  Ends, returns, exits,
}
use integer_java_virtual_mac.Marr.{
  Global, arr_mem, net_conn, marr_check_marked, marr_get_element, marr_remove_element,
}
use integer_java_virtual_mac.Marr.Slots.{Holds, IsWhole, IsAny, HasObjects, Holds-clear}

-- A run that does not lack fuel, and has invariant `I` where it returns or gives up.
pub data Sound {ℓ} {A : Type ℓ} (I : Vm → Type 0) : Run A → Type ℓ where
  sound : {a : A} {t : Vm} → I t → Sound I (ok a t)
  sound_exit : {e : Error} {t : Vm} → I t → Sound I (exit e t)
  sound_fault : Sound I fault

module _ {ℓ κ} {A : Type ℓ} {B : Type κ} {I : Vm → Type 0} where
  pub Sound-bind :
      {r : Run A}
      → (k : A → M B) → Sound I r
      → ((a : A) (t : Vm) → I t → Sound I (k a t))
      → Sound I (and_then r k)
  Sound-bind k (sound h) next = next _ _ h
  Sound-bind k (sound_exit h) next = sound_exit h
  Sound-bind k sound_fault next = sound_fault

module _ {ℓ} {A : Type ℓ} {I : Vm → Type 0} where
  pub Sound-if : (b : Bool) {x y : Run A} → Sound I x → Sound I y → Sound I (if b then x else y)
  Sound-if true l r = l
  Sound-if false l r = r

  pub Sound-if_at :
      (b : Bool) (s : Vm) (m k : M A)
      → Sound I (m s)
      → Sound I (k s)
      → Sound I ((if b then m else k) s)
  Sound-if_at true s m k l r = l
  Sound-if_at false s m k l r = r

  pub Sound-then {κ} :
      {B : Type κ} {J : Vm → Type 0} {r : Run A} (k : A → M B)
      → Sound I r
      → ((t : Vm) → I t → J t)
      → ((a : A) (t : Vm) → I t → Sound J (k a t))
      → Sound J (and_then r k)
  Sound-then k (sound h) weaken next = next _ _ h
  Sound-then k (sound_exit h) weaken next = sound_exit (weaken _ h)
  Sound-then k sound_fault weaken next = sound_fault

  pub Sound-mono : {J : Vm → Type 0} {r : Run A} → Sound I r → ((t : Vm) → I t → J t) → Sound J r
  Sound-mono (sound h) weaken = sound (weaken _ h)
  Sound-mono (sound_exit h) weaken = sound_exit (weaken _ h)
  Sound-mono sound_fault weaken = sound_fault

-- What returns or gives up, with the invariant in either case.
pub Ends-Sound {ℓ κ μ} :
    {A : Type ℓ} {P : A → Vm → Type κ} {Q : Error → Vm → Type μ} {I : Vm → Type 0} {r : Run A}
    → Ends P Q r
    → ((a : A) (t : Vm) → P a t → I t)
    → ((e : Error) (t : Vm) → Q e t → I t)
    → Sound I r
Ends-Sound (returns p) f g = sound (f _ _ p)
Ends-Sound (exits q) f g = sound_exit (g _ _ q)

pub ruleset sound_rules = (Sound-bind, Sound-if, Sound-if_at, sound, sound_exit, sound_fault)

pub alloc-Sound : (s : Vm) → HasObjects s → Sound HasObjects (alloc s)
unfolding alloc
alloc-Sound s h = search sound_rules

pub read_stack-Sound : (i : ℕ) (s : Vm) → HasObjects s → Sound HasObjects (read_stack i s)
unfolding read_stack
read_stack-Sound i s h = search sound_rules

pub write_stack-Sound : (i v : ℕ) (s : Vm) → HasObjects s → Sound HasObjects (write_stack i v s)
unfolding write_stack
write_stack-Sound i v s h = search sound_rules

pub system-Sound : (c : Call) (s : Vm) → HasObjects s → Sound HasObjects (system c s)
unfolding system
system-Sound c s h = search sound_rules

-- One of the two mapped arrays, with the property of its objects.
pub record IsSlots {A : Type 0} (P : A → Type 0) (g : Global A) : Type 0 where
  pub holds : (s : Vm) → HasObjects s → Holds P (g.get s)
  pub puts : (m : MArr A) (s : Vm) → Holds P m → HasObjects s → HasObjects (g.put m s)
  pub apart : (bs : List Bool) (s : Vm) → g.get (record s { heap_answers = bs }) ≡ g.get s

abbrev pub arr_mem-IsSlots : IsSlots IsWhole arr_mem
arr_mem-IsSlots = record {
  holds = λ s h. h.arrays_hold;
  puts = λ m s k h. record { arrays_hold = k; socks_hold = h.socks_hold; blocks = h.blocks };
  apart = λ bs s. refl;
}

abbrev pub net_conn-IsSlots : IsSlots IsAny net_conn
net_conn-IsSlots = record {
  holds = λ s h. h.socks_hold;
  puts = λ m s k h. record { arrays_hold = h.arrays_hold; socks_hold = k; blocks = h.blocks };
  apart = λ bs s. refl;
}

module _ {A : Type 0} {P : A → Type 0} (g : Global A) (slots : IsSlots P g) where
  pub marr_check_marked-Sound :
      (i : ℕ) (s : Vm) → HasObjects s → Sound HasObjects (marr_check_marked g i s)
  unfolding marr_check_marked
  marr_check_marked-Sound i s h = search sound_rules

  pub marr_get_element-Sound :
      (i : ℕ) (s : Vm) → HasObjects s → Sound HasObjects (marr_get_element g i s)
  unfolding marr_get_element
  marr_get_element-Sound i s h = search sound_rules

  pub marr_remove_element-Sound :
      (i : ℕ) (s : Vm) → HasObjects s → Sound HasObjects (marr_remove_element g i s)
  unfolding marr_remove_element
  marr_remove_element-Sound i s h =
      Sound-if _ (sound_exit h)
        (sound (slots.puts _ s (Holds-clear (g.get s) i (slots.holds s h)) h))
