-- ===== src/Debugger/Record.antt =====
-- `store_func_call` of src/ijdb.c on a well-formed INVOKEVIRTUAL.
use integer_java_virtual_mac.Base.{
  ℕ, ◌+◌, ◌-◌, ◌*◌, ◌≤◌, ◌<◌, ◌≡◌, refl, ◌∙◌, lt→ltb, List, ◌∷◌, arith,
}
use integer_java_virtual_mac.Base.Word.{wrap, sext16}
use integer_java_virtual_mac.Machine.{Vm, ok, update, AllocSucceeds}
use integer_java_virtual_mac.Util.{get_code_byte, get_code_short}
use integer_java_virtual_mac.Interpreter.Fetch.{HasCode, short_at, bytes_or}
use integer_java_virtual_mac.Interpreter.Calls.{get_constant-ok}
use integer_java_virtual_mac.Debugger.{Dbg, store_func_call}
use integer_java_virtual_mac.Debugger.Calls.{FuncCall, HasHistory, Represents-frame, Words-frame}
use integer_java_virtual_mac.Debugger.Store.{
  top_words, length-top_words, with_history, push_history-ok, HasArgs, store_args-ok, Words-copied,
  history_room-ok,
}

-- INVOKEVIRTUAL at the program counter: the address of its method, and the number of arguments,
-- which are on the stack.
pub record IsInvoked (s : Vm) (addr n : ℕ) : Type 0 where
  pub code : HasCode s
  pub argument : s.cpu.pc + 2 < s.cpu.code_mem_size
  pub consts_int : s.cpu.const_mem_size < 0x8000_0000
  pub index : short_at s (s.cpu.pc + 1) < 0x8000
  pub constant : short_at s (s.cpu.pc + 1) * 4 + 4 ≤ s.cpu.const_mem_size
  pub address : s.cpu.const_mem (short_at s (s.cpu.pc + 1)) ≡ addr
  pub method : addr + 1 < s.cpu.code_mem_size
  pub args_at : short_at s addr ≡ n
  pub args_short : n < 0x8000
  pub enough : n ≤ s.cpu.sp + 1
  pub room : s.cpu.sp < s.cpu.stack_size
  pub size_int : s.cpu.stack_size < 0x8000_0000

get_code_short-ok :
    (s : Vm) (i : ℕ)
    → HasCode s
    → i + 1 < s.cpu.code_mem_size
    → get_code_short i s ≡ ok (sext16 (short_at s i)) s
unfolding get_code_short get_code_byte
get_code_short-ok s i h lt =
    rw
      (
        lt→ltb i s.cpu.code_mem_size (omega arith),
        lt→ltb (i + 1) s.cpu.code_mem_size lt,
        bytes_or (s.cpu.code_mem i) (s.cpu.code_mem (i + 1)) (h.bytes _) (h.bytes _),
      )
      refl

sext16-small : (n : ℕ) → n < 0x8000 → sext16 n ≡ n
sext16-small n h = ground arith

-- A call that lies upon the history.
HasHistory-call :
    (d : Dbg) (s : Vm) (cs : List FuncCall) (addr n size : ℕ) (h' : ℕ → ℕ)
    → HasHistory d cs
    → HasArgs s n 0 d.call_history_top d.call_history h'
    → d.call_history_top + n + 2 ≤ size
    → size < 0x1_0000_0000
    → HasHistory
        (with_history d
          (update (update h' (d.call_history_top + n) n) (d.call_history_top + n + 1) addr)
          (d.call_history_top + n + 2)
          size)
        (record { func_addr = addr; args = top_words s n } ∷ cs)
HasHistory-call d s cs addr n size h' k w fits int =
    let base = d.call_history_top in
    let g = update (update h' (base + n) n) (base + n + 1) addr in
    let first : base + n + 2 - 1 ≡ base + n + 1 = omega arith in
    let second : base + n + 2 - 2 ≡ base + n = omega arith in
    let same : (j : ℕ) → j < base + n → g j ≡ h' j = λ j lt. ground arith in
    record {
      fits = fits;
      allocated = refl;
      size_int = int;
      calls = (
        omega arith,
        rw first (ground arith),
        rw (second, length-top_words s n) (ground arith),
        (
          base,
          rw second (
              Words-frame h' g (top_words s n) (base + n) base same
                (Words-copied s n base d.call_history h' w)),
          Represents-frame d.call_history g cs base (λ j lt. same j (omega arith) ∙ w.below j lt)
              k.calls,
        ),
      );
    }

-- Before a well-formed INVOKEVIRTUAL, where no allocation fails and the history stays a block of
-- less than 2 ^ 32 elements, the debugger pushes onto the stack of calls that its history
-- represents the address of the method with the arguments, the first one first. Only the history
-- has changed.
pub store_func_call-HasHistory :
    (d : Dbg) (s : Vm) (cs : List FuncCall) (addr n : ℕ)
    → HasHistory d cs
    → AllocSucceeds s
    → IsInvoked s addr n
    → d.call_history_top + n + 1026 < 0x1_0000_0000
    → (h : ℕ → ℕ) × (size : ℕ) × (store_func_call d s
        ≡ ok (tt, with_history d h (d.call_history_top + n + 2) size) s)
      × HasHistory
          (with_history d h (d.call_history_top + n + 2) size)
          (record { func_addr = addr; args = top_words s n } ∷ cs)
unfolding store_func_call
store_func_call-HasHistory d s cs addr n k alloc call small =
    let base = d.call_history_top in
    let (size, grown, fits, int) = history_room-ok (2 + n) d s alloc k.allocated (omega arith) in
    let (h', copied, w) =
      store_args-ok n 0 d s d.call_history base size (omega arith) (omega (arith, call.enough))
        call.room call.size_int in
    let next : wrap (s.cpu.pc + 1) ≡ s.cpu.pc + 1 = omega (arith, call.argument, call.code.size) in
    let need : wrap (2 + n) ≡ 2 + n = omega (arith, call.args_short) in
    let sum : base + n + 1 + 1 ≡ base + n + 2 = omega arith in
    (
      update (update h' (base + n) n) (base + n + 1) addr,
      size,
      rw
          (
            next,
            get_code_short-ok s (s.cpu.pc + 1) call.code (omega (arith, call.argument)),
            sext16-small _ call.index,
            get_constant-ok s (short_at s (s.cpu.pc + 1)) call.index call.consts_int call.constant,
            call.address,
            get_code_short-ok s addr call.code call.method,
            call.args_at,
            sext16-small n call.args_short,
            need,
            grown,
            copied,
            push_history-ok d s n h' (base + n) size (omega arith),
            push_history-ok d s addr (update h' (base + n) n) (base + n + 1) size (omega arith),
            sum,
          )
          refl,
      HasHistory-call d s cs addr n size h' k w (omega arith) (ground (arith, k.size_int)),
    )
