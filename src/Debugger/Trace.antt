-- ===== src/Debugger/Trace.antt =====
-- The calls and returns of a run, and what `create_call_history` of src/ijdb.c makes of them.
use integer_java_virtual_mac.Base.{
  ℕ, ◌+◌, ◌-◌, ◌<◌, ◌≡◌, ◌≢◌, refl, lt→ltb, List, [], ◌∷◌, length, Option, some, arith,
}
use integer_java_virtual_mac.Machine.{Vm, ok, AllocSucceeds}
use integer_java_virtual_mac.Util.{get_code_byte}
use integer_java_virtual_mac.Opcode.{Op, invokevirtual, ireturn, wide, decode}
use integer_java_virtual_mac.Debugger.{Dbg, record_op, create_call_history}
use integer_java_virtual_mac.Debugger.Calls.{
  FuncCall, Words-base, Represents, HasHistory, at_top, remove_last_func_call-HasHistory,
}
use integer_java_virtual_mac.Debugger.Store.{top_words, with_history}
use integer_java_virtual_mac.Debugger.Record.{IsInvoked, store_func_call-HasHistory}
use integer_java_virtual_mac.Debugger.Moves.{settings}

-- The words that calls take up in the history.
abbrev pub history_words : List FuncCall → ℕ
history_words [] = 0
history_words (c ∷ cs) = 2 + length c.args + history_words cs

Represents-history_words :
    (h : ℕ → ℕ) (cs : List FuncCall) (top : ℕ) → Represents h top cs → top ≡ history_words cs
Represents-history_words h [] top e = e
Represents-history_words h (c ∷ cs) top (two, addr, count, (base, w, r)) =
    omega (arith, Words-base h c.args (top - 2) base w, Represents-history_words h cs base r)

-- The opcode at the program counter.
abbrev pub op_of : Vm → Option Op
op_of s = decode (s.cpu.code_mem s.cpu.pc)

-- The opcode behind it.
abbrev pub next_op : Vm → Option Op
next_op s = decode (s.cpu.code_mem (s.cpu.pc + 1))

-- The calls in progress before and after the instruction at the program counter: a call of a
-- method, where the history is less than 2 ^ 32 words and there is memory, a return, or another
-- instruction. A WIDE makes `step` carry out the instruction behind it too, which is no call, no
-- return and no other WIDE.
pub data Calls (s : Vm) : List FuncCall → List FuncCall → Type 0 where
  calls :
      {cs : List FuncCall} {addr n : ℕ}
      → op_of s ≡ some invokevirtual
      → IsInvoked s addr n
      → AllocSucceeds s
      → history_words cs + n + 1026 < 0x1_0000_0000
      → Calls s cs (record { func_addr = addr; args = top_words s n } ∷ cs)
  comes_back : {c : FuncCall} {cs : List FuncCall} → op_of s ≡ some ireturn → Calls s (c ∷ cs) cs
  goes_on :
      {cs : List FuncCall}
      → op_of s ≢ some invokevirtual
      → op_of s ≢ some ireturn
      → (op_of s ≡ some wide
          → (next_op s ≢ some invokevirtual) × (next_op s ≢ some ireturn) × (next_op s ≢ some wide))
      → Calls s cs cs

-- The debugger with the calls `cs` in its history, and nothing but its history changed.
pub record Recorded (d d' : Dbg) (cs : List FuncCall) : Type 0 where
  pub history : HasHistory d' cs
  pub same : settings d' ≡ settings d
  pub quits : d'.quit_flag ≡ d.quit_flag
  pub prints : d'.printed ≡ d.printed

record_op-other :
    (o : Option Op) (d : Dbg) (s : Vm)
    → o ≢ some invokevirtual
    → o ≢ some ireturn
    → record_op o d s ≡ ok (tt, d) s
record_op-other (some invokevirtual) d s call ret = absurd (call refl)
record_op-other (some ireturn) d s call ret = absurd (ret refl)
record_op-other _ d s call ret = refl

record_op-Recorded :
    (d : Dbg) (s : Vm) (cs cs' : List FuncCall)
    → HasHistory d cs
    → Calls s cs cs'
    → (d' : Dbg) × (record_op (op_of s) d s ≡ ok (tt, d') s) × Recorded d d' cs'
record_op-Recorded d s cs cs' h (calls {addr} {n} op call alloc small) =
    let top = Represents-history_words d.call_history cs d.call_history_top h.calls in
    let (g, size, e, k) = store_func_call-HasHistory d s cs addr n h alloc call (omega arith) in
    (
      with_history d g (d.call_history_top + n + 2) size,
      rw op e,
      record { history = k; same = refl; quits = refl; prints = refl },
    )
record_op-Recorded d s (c ∷ cs) cs' h (comes_back op) =
    let (top, e, k) = remove_last_func_call-HasHistory d s c cs h in
    (at_top d top, rw op e, record { history = k; same = refl; quits = refl; prints = refl })
record_op-Recorded d s cs cs' h (goes_on call ret plain) = (
  d,
  record_op-other (op_of s) d s call ret,
  record { history = h; same = refl; quits = refl; prints = refl },
)

pub get_code_byte-ok :
    (s : Vm) (i : ℕ) → i < s.cpu.code_mem_size → get_code_byte i s ≡ ok (s.cpu.code_mem i) s
unfolding get_code_byte
get_code_byte-ok s i lt = rw (lt→ltb i s.cpu.code_mem_size lt) refl

pub create_call_history-Recorded :
    (d : Dbg) (s : Vm) (cs cs' : List FuncCall)
    → s.cpu.pc < s.cpu.code_mem_size
    → HasHistory d cs
    → Calls s cs cs'
    → (d' : Dbg) × (create_call_history d s ≡ ok (tt, d') s) × Recorded d d' cs'
unfolding create_call_history
create_call_history-Recorded d s cs cs' lt h turn =
    let (d', e, k) = record_op-Recorded d s cs cs' h turn in
    (d', rw (get_code_byte-ok s s.cpu.pc lt) e, k)
