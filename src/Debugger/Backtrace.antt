-- ===== src/Debugger/Backtrace.antt =====
-- `exec_backtrace` of src/ijdb.c: what is printed is the stack of calls.
use mathlib.Core.List.{append_assoc, append-nil}
use integer_java_virtual_mac.Base.{
  ℕ, zero, suc, ◌+◌, ◌-◌, ◌≤◌, ◌<◌, ◌≡◌, refl, ap, lt→ltb, ne→==, List, [], ◌∷◌, ◌++◌, length, true,
  some, arith,
}
use integer_java_virtual_mac.Base.Word.{sub_word}
use integer_java_virtual_mac.Machine.{Vm, ok}
use integer_java_virtual_mac.Symbols.{Text}
use integer_java_virtual_mac.Debugger.{
  Dbg, Message, func_call, read_history, read_args, call_args, print_calls, print_func_calls,
  addr_to_func_name, exec_backtrace, has_started,
}
use integer_java_virtual_mac.Debugger.Calls.{FuncCall, Words, Words-base, Represents, HasHistory}

-- The debugger, having printed `ms`.
abbrev pub with_printed : Dbg → List Message → Dbg
with_printed d ms = record d { printed = ms }

-- The addresses of the calls have names, which a lookup gives whatever has been printed.
abbrev pub AreNamed : Dbg → Vm → (ℕ → Text) → List FuncCall → Type 0
AreNamed d s name [] = Unit
AreNamed d s name (c ∷ cs) =
    ((ms : List Message)
      → addr_to_func_name c.func_addr (with_printed d ms) s
        ≡ ok (name c.func_addr, with_printed d ms) s)
    × AreNamed d s name cs

-- A numbered line for each call, the last one first.
abbrev pub call_lines : (ℕ → Text) → ℕ → List FuncCall → List Message
call_lines name count [] = []
call_lines name count (c ∷ cs) =
    func_call (some (count + 1)) c.func_addr (name c.func_addr) c.args
    ∷ call_lines name (count + 1) cs

read_history-ok :
    (d : Dbg) (s : Vm) (i : ℕ)
    → i < d.history_allocated
    → read_history i d s ≡ ok (d.call_history i, d) s
unfolding read_history
read_history-ok d s i lt = rw (lt→ltb i d.history_allocated lt) refl

read_args-ok :
    (vs : List ℕ) (d : Dbg) (s : Vm) (offset base : ℕ)
    → offset ≤ d.history_allocated
    → offset < 0x1_0000_0000
    → Words d.call_history offset vs base
    → read_args (length vs) offset d s ≡ ok ((vs, base), d) s
unfolding read_args
read_args-ok [] d s offset base fits int e = ap (λ (n : ℕ). ok (([], n), d) s) e
read_args-ok (v ∷ vs) d s offset base fits int (pos, e, w) =
    let below : sub_word offset 1 ≡ offset - 1 = omega arith in
    rw
      (
        below,
        read_history-ok d s (offset - 1) (omega arith),
        e,
        read_args-ok vs d s (offset - 1) base (omega arith) (omega arith) w,
      )
      refl

call_args-ok :
    (d : Dbg) (s : Vm) (top base : ℕ) (vs : List ℕ)
    → 2 ≤ top
    → top ≤ d.history_allocated
    → top < 0x1_0000_0000
    → d.call_history (top - 2) ≡ length vs
    → Words d.call_history (top - 2) vs base
    → call_args (top - 1) d s ≡ ok ((vs, base), d) s
unfolding call_args
call_args-ok d s top base vs two fits int count w =
    let below : sub_word (top - 1) 1 ≡ top - 2 = omega arith in
    rw
      (
        ne→== (top - 1) 0 (omega arith),
        below,
        read_history-ok d s (top - 2) (omega arith),
        count,
        read_args-ok vs d s (top - 2) base (omega arith) (omega arith) w,
      )
      refl

print_calls-ok :
    (cs : List FuncCall) (fuel count top : ℕ) (d : Dbg) (s : Vm) (ms : List Message)
    (name : ℕ → Text)
    → AreNamed d s name cs
    → Represents d.call_history top cs
    → top ≤ d.history_allocated
    → top < 0x1_0000_0000
    → top < fuel
    → print_calls fuel 0 top count (with_printed d ms) s
      ≡ ok (tt, with_printed d (ms ++ call_lines name count cs)) s
unfolding print_calls
print_calls-ok cs zero count top d s ms name naming r fits int lt = absurd (omega arith)
print_calls-ok [] (suc fuel) count top d s ms name naming r fits int lt = rw (r, append-nil ms) refl
print_calls-ok (c ∷ cs) (suc fuel) count top d s ms name (named, others)
      (two, addr, args, (base, w, r)) fits int lt =
    let below : sub_word top 1 ≡ top - 1 = omega arith in
    let e = with_printed d ms in
    let line = func_call (some (count + 1)) c.func_addr (name c.func_addr) c.args in
    let size = Words-base d.call_history c.args (top - 2) base w in
    rw
      (
        ne→== top 0 (omega arith),
        below,
        read_history-ok e s (top - 1) (omega arith),
        addr,
        named ms,
        call_args-ok e s top base c.args two fits int args w,
        print_calls-ok cs fuel (count + 1) base d s (ms ++ line ∷ []) name others r (omega arith)
            (omega arith) (omega arith),
        append_assoc ms (line ∷ []) (call_lines name (count + 1) cs),
      )
      refl

-- The backtrace of a program that has been started prints the stack of calls that the history
-- represents, the last call first and numbered from 1, each with its address, the name of the
-- address and its arguments, and changes nothing else. The name of the address of each of the calls
-- is taken to be found: its lookup reads inside the labels, as it does where no address is below
-- the first of them, and no allocation fails.
pub exec_backtrace_lem :
    (d : Dbg) (s : Vm) (cs : List FuncCall) (name : ℕ → Text)
    → HasHistory d cs
    → AreNamed d s name cs
    → has_started d.prog_state ≡ true
    → exec_backtrace d s ≡ ok (tt, with_printed d (d.printed ++ call_lines name 0 cs)) s
unfolding exec_backtrace print_func_calls
exec_backtrace_lem d s cs name h naming running = rw running (
    print_calls-ok cs (suc d.call_history_top) 0 d.call_history_top d s d.printed name naming
      h.calls (omega (arith, h.fits, h.allocated)) (omega (arith, h.fits, h.size_int))
      (omega arith))
