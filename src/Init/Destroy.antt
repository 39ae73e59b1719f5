-- ===== src/Init/Destroy.antt =====
-- `destroy_ijvm` of src/terminate.c, with `arr_destroy` of src/array.c and `cpu_destroy` of
-- src/cpu.c.
use integer_java_virtual_mac.Base.{
  ℕ, zero, suc, ◌+◌, ◌≤◌, ◌<◌, ◌≡◌, ◌≢◌, refl, true, inl, inr, Bool-cases, lt→leb, arith,
}
use integer_java_virtual_mac.Machine.{
  Vm, MArr, Block, Pointer, null, live, dangling, free_block, ok,
}
use integer_java_virtual_mac.Marr.{
  no_slots, clear, marr_check_marked, marr_get_element, marr_remove_element, marr_destroy,
}
use integer_java_virtual_mac.Marr.Slots.{HasObjects, Holds, IsWhole, Holds-clear}
use integer_java_virtual_mac.Collector.{arr_remove}
use integer_java_virtual_mac.Cpu.{cpu_destroy}
use integer_java_virtual_mac.Arrays.{destroy_slots, arr_destroy}
use integer_java_virtual_mac.Net.Destroy.{logged, ending_all, net_destroy-ok}
use integer_java_virtual_mac.Init.{destroy_ijvm}

-- The pointer after its block has been freed.
abbrev pub freed : Pointer → Pointer
freed null = null
freed live = dangling
freed dangling = dangling

free_block-freed : (p : Pointer) (s : Vm) → p ≢ dangling → free_block p s ≡ ok (freed p) s
unfolding free_block
free_block-freed null s h = refl
free_block-freed live s h = refl
free_block-freed dangling s h = absurd (h refl)

abbrev pub with_arrays : Vm → MArr Block → Vm
with_arrays s u = record s { arr_mem = u }

arr_remove-ok :
    (s : Vm) (i : ℕ)
    → i < s.arr_mem.size
    → s.arr_mem.map i ≡ true
    → arr_remove i s ≡ ok tt (with_arrays s (clear s.arr_mem i))
unfolding arr_remove marr_get_element marr_remove_element
arr_remove-ok s i lt used = ground arith

-- Every array in use is freed: its slot holds an object, and lies below the size.
destroy_slots-ok :
    (s : Vm) (n i : ℕ)
    → i + n ≤ s.arr_mem.size
    → Holds IsWhole s.arr_mem
    → (u : MArr Block) × (destroy_slots n i s ≡ ok tt (with_arrays s u))
unfolding destroy_slots marr_check_marked
destroy_slots-ok s zero i fits h = (s.arr_mem, refl)
destroy_slots-ok s (suc n) i fits h =
    let inside = lt→leb s.arr_mem.size i (omega arith) in
    elim (Bool-cases (s.arr_mem.map i)) [
      | inr free ↦
          let (u, e) = destroy_slots-ok s n (i + 1) (omega arith) h in (u, rw (inside, free) e)
      | inl used ↦
          let t = with_arrays s (clear s.arr_mem i) in
          let (u, e) = destroy_slots-ok t n (i + 1) (omega arith) (Holds-clear s.arr_mem i h) in
          (u, rw (inside, used, arr_remove-ok s i (omega arith) used) e)
    ]

-- The machine with all of its memory released, after the calls that end its connections.
abbrev pub released : Vm → Vm
released s = record s {
  net_conn = no_slots;
  arr_mem = no_slots;
  marked_arrays = freed s.marked_arrays;
  network = logged s.network (ending_all s.net_conn s.net_conn.size 0);
  cpu = record (s.cpu) {
    const_block = freed s.cpu.const_block;
    code_block = freed s.cpu.code_block;
    stack_block = freed s.cpu.stack_block;
  };
}

arr_destroy-ok :
    (s : Vm)
    → Holds IsWhole s.arr_mem
    → s.marked_arrays ≢ dangling
    → arr_destroy s ≡ ok tt (record s { arr_mem = no_slots; marked_arrays = freed s.marked_arrays })
unfolding arr_destroy marr_destroy
arr_destroy-ok s h marks =
    let (u, e) = destroy_slots-ok s s.arr_mem.size 0 (omega arith) h in
    rw (e, free_block-freed s.marked_arrays (with_arrays s no_slots) marks) refl

cpu_destroy-ok :
    (s : Vm)
    → s.cpu.const_block ≢ dangling
    → s.cpu.code_block ≢ dangling
    → s.cpu.stack_block ≢ dangling
    → cpu_destroy s
      ≡ ok tt (record s {
        cpu = record (s.cpu) {
          const_block = freed s.cpu.const_block;
          code_block = freed s.cpu.code_block;
          stack_block = freed s.cpu.stack_block;
        };
      })
unfolding cpu_destroy
cpu_destroy-ok s const code stack =
    rw
      (
        free_block-freed s.cpu.stack_block s stack,
        free_block-freed s.cpu.code_block s code,
        free_block-freed s.cpu.const_block s const,
      )
      refl

-- On a machine whose slots in use hold their objects, with at most 2 ^ 20 slots for connections and
-- no block of the processor and no marks that have been freed before, `destroy_ijvm` returns, with
-- no access outside a block, no block freed twice and no message: both mapped arrays are empty,
-- every block is freed, and the calls to the operating system are exactly those that shut down and
-- close, in the order of the slots, the sockets of the connections in use that are a client's or a
-- server's.
pub destroy_ijvm_lem :
    (s : Vm) → HasObjects s → s.net_conn.size ≤ 0x10_0000 → destroy_ijvm s ≡ ok tt (released s)
unfolding destroy_ijvm
destroy_ijvm_lem s h small =
    let k = h.blocks in
    let n = logged s.network (ending_all s.net_conn s.net_conn.size 0) in
    let t = record s { net_conn = no_slots; network = n } in
    let u = record t { arr_mem = no_slots; marked_arrays = freed s.marked_arrays } in
    rw
      (
        net_destroy-ok s small h.socks_hold,
        arr_destroy-ok t h.arrays_hold k.marks_left,
        cpu_destroy-ok u k.const_left k.code_left k.stack_left,
      )
      refl
