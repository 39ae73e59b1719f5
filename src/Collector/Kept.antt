-- ===== src/Collector/Kept.antt =====
-- A collection leaves the program alone.
use integer_java_virtual_mac.Base.{ℕ, ◌≡◌, refl, Option}
use integer_java_virtual_mac.Machine.{Vm, Run, Block}
use integer_java_virtual_mac.Machine.Stays.{Stays, stays, gives_up, faults, Fixed, fixed}
use integer_java_virtual_mac.Marr.Sound.{Sound, sound, sound_exit, sound_fault}
use integer_java_virtual_mac.Collector.{read_cell, deref, arr_gc}
use integer_java_virtual_mac.Collector.Sound.{
  IsCollectable, read_cell-Keeps, deref-Keeps, arr_gc-Keeps,
}

abbrev IsFixed : Fixed → Vm → Type 0
IsFixed p t = fixed t ≡ p

abbrev IsFixed-IsCollectable : (p : Fixed) → IsCollectable (IsFixed p)
IsFixed-IsCollectable p = record { asks = λ s h. h; clears = λ i s h. h; marks = λ enough s h. h }

Sound-Stays : {A : Type 0} (p : Fixed) {r : Run A} → Sound (IsFixed p) r → Stays p r
Sound-Stays p (sound h) = stays h
Sound-Stays p (sound_exit h) = gives_up
Sound-Stays p sound_fault = faults

module _ (s : Vm) where
  pub read_cell-Stays : (b : Block) (i : ℕ) → Stays (fixed s) (read_cell b i s)
  read_cell-Stays b i =
      let p = fixed s in
      Sound-Stays p (read_cell-Keeps (IsFixed p) (IsFixed-IsCollectable p) b i s refl)

  pub deref-Stays : (o : Option Block) → Stays (fixed s) (deref o s)
  deref-Stays o =
      let p = fixed s in Sound-Stays p (deref-Keeps (IsFixed p) (IsFixed-IsCollectable p) o s refl)

  pub arr_gc-Stays : Stays (fixed s) (arr_gc s)
  arr_gc-Stays =
      let p = fixed s in Sound-Stays p (arr_gc-Keeps (IsFixed p) (IsFixed-IsCollectable p) s refl)
