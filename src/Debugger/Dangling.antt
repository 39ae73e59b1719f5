-- ===== src/Debugger/Dangling.antt =====
-- `exec_file` of src/ijdb.c on a file that cannot be opened.
use integer_java_virtual_mac.Base.{ℕ, ◌≡◌, ◌≢◌, refl, none, List, [], ap}
use integer_java_virtual_mac.Machine.{
  Vm, Pointer, null, live, dangling, ok, fault, AllocSucceeds, free_block,
}
use integer_java_virtual_mac.Marr.{no_slots, marr_destroy}
use integer_java_virtual_mac.Net.{net_destroy, close_slots}
use integer_java_virtual_mac.Arrays.{arr_destroy, destroy_slots}
use integer_java_virtual_mac.Cpu.{cpu_destroy}
use integer_java_virtual_mac.Loader.{load_bin}
use integer_java_virtual_mac.Init.{init_ijvm, destroy_ijvm}
use integer_java_virtual_mac.Symbols.{Text}
use integer_java_virtual_mac.Debugger.{Dbg, open_file, load_program, exec_file}
use integer_java_virtual_mac.Debugger.Fresh.{give_up_program-ok}
use integer_java_virtual_mac.Collector.Collect.{free_block-ok}

-- The machine without arrays, connections and memory.
abbrev torn_down : Vm → Pointer → Vm
torn_down s p = record s {
  cpu = record (s.cpu) { stack_block = dangling; code_block = dangling; const_block = dangling };
  arr_mem = no_slots;
  net_conn = no_slots;
  marked_arrays = p;
}

free_block-live : (p : Pointer) (s : Vm) → p ≡ live → free_block p s ≡ ok dangling s
unfolding free_block
free_block-live p s e = ap (λ (q : Pointer). free_block q s) e

close_slots-empty : (n : ℕ) (s : Vm) → n ≡ 0 → close_slots n 0 s ≡ ok tt s
unfolding close_slots
close_slots-empty n s e = ap (λ (k : ℕ). close_slots k 0 s) e

destroy_slots-empty : (n : ℕ) (s : Vm) → n ≡ 0 → destroy_slots n 0 s ≡ ok tt s
unfolding destroy_slots
destroy_slots-empty n s e = ap (λ (k : ℕ). destroy_slots k 0 s) e

-- The program has no arrays and no connections, and its memory is there.
pub record IsBare (s : Vm) : Type 0 where
  pub arrays : s.arr_mem.size ≡ 0
  pub conns : s.net_conn.size ≡ 0
  pub marks : s.marked_arrays ≢ dangling
  pub stack : s.cpu.stack_block ≡ live
  pub code : s.cpu.code_block ≡ live
  pub const : s.cpu.const_block ≡ live

destroy_ijvm-IsBare : (s : Vm) → IsBare s → (p : Pointer) × (destroy_ijvm s ≡ ok tt (torn_down s p))
unfolding destroy_ijvm net_destroy arr_destroy marr_destroy cpu_destroy
destroy_ijvm-IsBare s h =
    let t = record s { net_conn = no_slots; arr_mem = no_slots } in
    let (p, e) = free_block-ok s.marked_arrays t h.marks in
    let u = record t { marked_arrays = p } in
    (
      p,
      rw
          (
            close_slots-empty s.net_conn.size s h.conns,
            destroy_slots-empty s.arr_mem.size (record s { net_conn = no_slots }) h.arrays,
            e,
            free_block-live s.cpu.stack_block u h.stack,
            free_block-live s.cpu.code_block u h.code,
            free_block-live s.cpu.const_block u h.const,
          )
          refl,
    )

-- Memory that has been released is released again.
destroy_ijvm-torn_down : (s : Vm) (p : Pointer) → destroy_ijvm (torn_down s p) ≡ fault
unfolding destroy_ijvm net_destroy arr_destroy close_slots destroy_slots marr_destroy cpu_destroy
    free_block
destroy_ijvm-torn_down s null = refl
destroy_ijvm-torn_down s live = refl
destroy_ijvm-torn_down s dangling = refl

init_ijvm-none :
    (s : Vm) (p : Pointer) (stdin : List ℕ) → init_ijvm none [] stdin (torn_down s p) ≡ fault
unfolding init_ijvm load_bin
init_ijvm-none s p stdin = rw (destroy_ijvm-torn_down s p) refl

-- With a program in memory that has no arrays and no connections, where no allocation fails, `file`
-- with the path of a file that cannot be opened has undefined behaviour: the memory of the program
-- is freed, and freed once more after `init_ijvm` has failed.
pub exec_file-dangling :
    (path : Text) (d : Dbg) (s : Vm)
    → AllocSucceeds s
    → IsBare s
    → d.files path ≡ none
    → exec_file path d s ≡ fault
unfolding exec_file load_program open_file
exec_file-dangling path d s h bare missing =
    let (p, e) = destroy_ijvm-IsBare s bare in
    rw (give_up_program-ok d s (torn_down s p) e h, missing, init_ijvm-none s p d.stdin) refl
