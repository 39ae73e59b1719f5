-- ===== src/Marr.antt =====
-- Mapped arrays, src/marr.c: the operations that need no garbage collection. The global that an
-- operation is called on is a `Global`, a way to read and to write one field of the machine.
pub mod Slots
pub mod Sound
use integer_java_virtual_mac.Base.{ℕ, Bool, true, false, Option, none, some, leb, if◌then◌else◌}
use integer_java_virtual_mac.Machine.{
  MArr, Block, Sock, Vm, bad_map_index, bad_element, unclaimed_element, ok, exit, M, update,
}

pub record Global (A : Type 0) : Type 0 where
  pub get : Vm → MArr A
  pub put : MArr A → Vm → Vm

-- `arr_mem` of src/array.c and `net_conn` of src/net.c.
abbrev pub arr_mem : Global Block
arr_mem = record { get = λ s. s.arr_mem; put = λ m s. record s { arr_mem = m } }

abbrev pub net_conn : Global Sock
net_conn = record { get = λ s. s.net_conn; put = λ m s. record s { net_conn = m } }

-- `{ 0, NULL, NULL }`
abbrev pub no_slots : {A : Type 0} → MArr A
no_slots = record { size = 0; map = λ _. false; values = λ _. none }

-- A slot filled with an object, and a slot emptied.
abbrev pub fill : {A : Type 0} → MArr A → ℕ → A → MArr A
fill m i a = record m { map = update m.map i true; values = update m.values i (some a) }

abbrev pub clear : {A : Type 0} → MArr A → ℕ → MArr A
clear m i = record m { map = update m.map i false; values = update m.values i none }

module _ {A : Type 0} (g : Global A) where
  unfoldable pub marr_check_marked : ℕ → M Bool
  marr_check_marked i s =
      let m = g.get s in if leb m.size i then exit bad_map_index s else ok (m.map i) s

  unfoldable pub marr_set_element : ℕ → A → M (Unit {0})
  marr_set_element i a s =
      let m = g.get s in if leb m.size i then exit bad_element s else ok tt (g.put (fill m i a) s)

  unfoldable pub marr_get_element : ℕ → M (Option A)
  marr_get_element i s =
      let m = g.get s in
      if leb m.size i
      then exit bad_element s
      else if m.map i
      then ok (m.values i) s
      else exit unclaimed_element s

  unfoldable pub marr_remove_element : ℕ → M (Unit {0})
  marr_remove_element i s =
      let m = g.get s in if leb m.size i then exit bad_element s else ok tt (g.put (clear m i) s)

  unfoldable pub marr_destroy : M (Unit {0})
  marr_destroy s = ok tt (g.put no_slots s)
