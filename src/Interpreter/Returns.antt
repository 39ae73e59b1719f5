-- ===== src/Interpreter/Returns.antt =====
-- IRETURN of src/interpreter.c in a frame that a call has left.
use integer_java_virtual_mac.Base.{ℕ, ◌+◌, ◌-◌, ◌≤◌, ◌<◌, ◌≡◌, refl, false, arith}
use integer_java_virtual_mac.Base.Word.{wrap, sub_word}
use integer_java_virtual_mac.Machine.{Vm, ok, update, Ends-ok}
use integer_java_virtual_mac.Cpu.{stack_pop}
use integer_java_virtual_mac.Cpu.Stack.{stack_pop-ok, stack_push-ok}
use integer_java_virtual_mac.Interpreter.Compute.{push}
use integer_java_virtual_mac.Interpreter.Control.{
  exec_op_invokevirtual, exec_op_ireturn, outside_frame,
}
use integer_java_virtual_mac.Interpreter.Fetch.{at_pc}
use integer_java_virtual_mac.Interpreter.Frames.{depth, Opened, frame_cell}
use integer_java_virtual_mac.Interpreter.Calls.{Callable, exec_op_invokevirtual-Ends}

-- A machine in a method whose frame saves the caller's `lv`, `nv`, `fp` and `pc`.
pub record Linked (t : Vm) (lv nv fp pc : ℕ) : Type 0 where
  pub size_int : t.cpu.stack_size < 0x8000_0000
  pub frame : t.cpu.lv + t.cpu.nv ≡ t.cpu.fp
  pub top : t.cpu.lv ≤ t.cpu.sp
  pub top_room : t.cpu.sp < t.cpu.stack_size
  pub frame_room : t.cpu.fp + 3 < t.cpu.stack_size
  pub saved_lv : t.cpu.stack t.cpu.fp ≡ lv
  pub saved_nv : t.cpu.stack (t.cpu.fp + 1) ≡ nv
  pub saved_fp : t.cpu.stack (t.cpu.fp + 2) ≡ fp
  pub saved_pc : t.cpu.stack (t.cpu.fp + 3) ≡ pc
  pub code_int : t.cpu.code_mem_size < 0x8000_0000
  pub pc_range : pc < t.cpu.code_mem_size
  pub fp_range : fp < t.cpu.stack_size
  pub nv_range : nv < 0x8000_0000
  pub lv_range : lv < t.cpu.stack_size

-- The registers are the caller's, and the value replaces the arguments.
abbrev pub returned : Vm → ℕ → ℕ → ℕ → ℕ → Vm
returned t lv nv fp pc = record t {
  cpu = record (t.cpu) {
    pc = pc;
    fp = fp;
    nv = nv;
    lv = lv;
    sp = t.cpu.lv;
    stack = update t.cpu.stack t.cpu.lv (t.cpu.stack t.cpu.sp);
  };
}

module _ (t : Vm) {lv nv fp pc : ℕ} (k : Linked t lv nv fp pc) where
  -- The machine while the registers are restored.
  regs : ℕ → ℕ → ℕ → ℕ → Vm
  regs p f n j = record t { cpu = record (t.cpu) { pc = p; fp = f; nv = n; sp = j } }

  stack_pop-regs :
      (p f n j m : ℕ) {v : ℕ}
      → t.cpu.lv ≤ j
      → j < t.cpu.stack_size
      → t.cpu.stack j ≡ v
      → sub_word j 1 ≡ m
      → stack_pop (regs p f n j) ≡ ok v (regs p f n m)
  unfolding regs
  stack_pop-regs p f n j m low room cell next =
      rw (stack_pop-ok (regs p f n j) low room k.size_int, cell, next)

  -- The registers after the last pop, less the local variables and the arguments.
  caller : ℕ → Vm
  caller m = record t { cpu = record (t.cpu) { pc = pc; fp = fp; nv = nv; lv = lv; sp = m } }

  caller-inside : outside_frame (caller (sub_word t.cpu.lv 1)).cpu ≡ false
  unfolding outside_frame caller
  caller-inside = ground (
    arith, k.top, k.top_room, k.size_int, k.code_int, k.pc_range, k.fp_range, k.nv_range,
    k.lv_range,
  )

  push-caller :
      push (t.cpu.stack t.cpu.sp) (caller (sub_word t.cpu.lv 1)) ≡ ok tt (returned t lv nv fp pc)
  unfolding caller
  push-caller =
      let e : wrap (sub_word t.cpu.lv 1 + 1) ≡ t.cpu.lv =
        omega (arith, k.top, k.top_room, k.size_int) in
      rw (
        stack_push-ok (caller (sub_word t.cpu.lv 1)) (t.cpu.stack t.cpu.sp)
            (omega (arith, e, k.top, k.top_room)) k.size_int,
        e,
      )

  -- IRETURN in a method whose frame saves four registers behind its local variables, all inside
  -- the stack, and whose saved registers pass the test of IRETURN, returns: the registers are the
  -- saved ones, the stack pointer is where the frame began, and the word there is the one that was
  -- on top. Nothing else changes.
  pub exec_op_ireturn-ok : exec_op_ireturn t ≡ ok tt (returned t lv nv fp pc)
  unfolding exec_op_ireturn regs caller
  exec_op_ireturn-ok =
      let b = k.frame in
      let r = k.frame_room in
      let z = k.size_int in
      let e : wrap (t.cpu.fp + 3) ≡ t.cpu.fp + 3 = omega arith in
      let e' : sub_word (sub_word t.cpu.fp 1) t.cpu.nv ≡ sub_word t.cpu.lv 1 = omega arith in
      let g = t.cpu.fp in
      rw (
        stack_pop-ok t k.top k.top_room z,
        e,
        stack_pop-regs t.cpu.pc g t.cpu.nv (g + 3) (g + 2) (omega arith) r k.saved_pc (omega arith),
        stack_pop-regs pc g t.cpu.nv (g + 2) (g + 1) (omega arith) (omega arith) k.saved_fp
            (omega arith),
        stack_pop-regs pc fp t.cpu.nv (g + 1) g (omega arith) (omega arith) k.saved_nv
            (omega arith),
        stack_pop-regs pc fp nv g (sub_word g 1) (omega arith) (omega arith) k.saved_lv refl,
        e',
        caller-inside,
        push-caller,
      )

-- A method leaves its registers, its four saved words and what lies below its frame alone, and
-- ends with a word on top of the stack.
pub record KeepsFrame (a t : Vm) : Type 0 where
  pub size_int : t.cpu.stack_size < 0x8000_0000
  pub size_grows : a.cpu.stack_size ≤ t.cpu.stack_size
  pub same_lv : t.cpu.lv ≡ a.cpu.lv
  pub same_nv : t.cpu.nv ≡ a.cpu.nv
  pub same_fp : t.cpu.fp ≡ a.cpu.fp
  pub same_code : t.cpu.code_mem_size ≡ a.cpu.code_mem_size
  pub top : t.cpu.lv ≤ t.cpu.sp
  pub top_room : t.cpu.sp < t.cpu.stack_size
  pub saved : (i : ℕ) → i < 4 → t.cpu.stack (a.cpu.fp + i) ≡ a.cpu.stack (a.cpu.fp + i)
  pub below : (j : ℕ) → j < a.cpu.lv → t.cpu.stack j ≡ a.cpu.stack j

-- The registers of the caller are such as IRETURN accepts.
pub record IsCaller (s : Vm) : Type 0 where
  pub next_pc : s.cpu.pc + 2 < s.cpu.code_mem_size
  pub fp_range : s.cpu.fp < s.cpu.stack_size
  pub nv_range : s.cpu.nv < 0x8000_0000
  pub lv_range : s.cpu.lv < s.cpu.stack_size

module _ (s a t : Vm) {offset args locals : ℕ} (c : Callable s offset args locals) (r : IsCaller s)
    (call : exec_op_invokevirtual s ≡ ok tt a) (k : KeepsFrame a t) where
  opened : Opened (at_pc s (offset + 4)) args locals (s.cpu.pc + 2) a
  opened = Ends-ok (exec_op_invokevirtual-Ends s c) call

  registers :
      (a.cpu.fp ≡ depth s + locals)
      × (a.cpu.lv ≡ depth s - args)
      × (a.cpu.nv ≡ args + locals)
      × (a.cpu.code_mem_size ≡ s.cpu.code_mem_size)
      × (s.cpu.stack_size ≤ a.cpu.stack_size)
      × (depth s + locals + 3 < a.cpu.stack_size)
  registers =
      let (n, f, e, cell, le, lt, top) = opened in
      (ground arith, ground arith, ground arith, ground arith, ground arith, ground arith)

  cell : (j : ℕ) → a.cpu.stack j ≡ frame_cell s locals (s.cpu.pc + 2) j
  cell j = let (n, f, e, at, le, lt, top) = opened in ground (arith, at j)

  linked : Linked t s.cpu.lv s.cpu.nv s.cpu.fp (s.cpu.pc + 2)
  linked =
      let (efp, elv, env, ecode, grows, room) = registers in
      let d = a.cpu.fp in
      record {
        size_int = k.size_int;
        frame = omega (arith, k.same_lv, k.same_nv, k.same_fp, c.enough);
        top = k.top;
        top_room = k.top_room;
        frame_room = omega (arith, k.same_fp, k.size_grows);
        saved_lv = ground (arith, k.same_fp, k.saved 0 (omega arith), cell d);
        saved_nv = ground (arith, k.same_fp, k.saved 1 (omega arith), cell (d + 1));
        saved_fp = ground (arith, k.same_fp, k.saved 2 (omega arith), cell (d + 2));
        saved_pc = ground (arith, k.same_fp, k.saved 3 (omega arith), cell (d + 3));
        code_int = omega (arith, k.same_code, c.code.size);
        pc_range = omega (arith, k.same_code, r.next_pc);
        fp_range = omega (arith, k.size_grows, r.fp_range);
        nv_range = r.nv_range;
        lv_range = omega (arith, k.size_grows, r.lv_range);
      }

  -- After a well-formed INVOKEVIRTUAL that returned, by a caller whose registers pass the test of
  -- IRETURN, a method that keeps its registers, its four saved words and the words below its frame
  -- returns to the instruction behind the call: IRETURN restores the caller's `lv`, `nv`, `fp` and
  -- the address behind the call, the arguments are replaced by the word on top of the method's
  -- stack, and the words that lay below the arguments are still those of the caller.
  pub exec_op_invokevirtual-exec_op_ireturn :
      (exec_op_ireturn t ≡ ok tt (returned t s.cpu.lv s.cpu.nv s.cpu.fp (s.cpu.pc + 2)))
      × (t.cpu.lv ≡ depth s - args)
      × ((j : ℕ) → j < depth s - args → t.cpu.stack j ≡ s.cpu.stack j)
  exec_op_invokevirtual-exec_op_ireturn =
      let (efp, elv, env, ecode, grows, room) = registers in
      (
        exec_op_ireturn-ok t linked,
        omega (arith, k.same_lv),
        λ j h. ground (arith, k.below j (omega arith), cell j),
      )
