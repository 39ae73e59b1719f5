-- ===== src/Debugger/Sequence.antt =====
-- Sequences of commands over the state of the debugger and the machine.
use Prim.Native.Char.{code}
use Prim.Native.String.{String}
use integer_java_virtual_mac.Base.{ℕ, ◌+◌, List, [], ◌∷◌, ◌++◌, ltb, if◌then◌else◌}
use integer_java_virtual_mac.Machine.{ok, fault, M, and_then, update}
use integer_java_virtual_mac.Debugger.State.{Dbg, Message}

-- When the machine gives up, the debugger exits with it.
abbrev pub D {ℓ} : Type ℓ → Type ℓ
D A = Dbg → M (A × Dbg)

abbrev pub done {ℓ} : {A : Type ℓ} → A → D A
done a d = ok (a, d)

infixl 5 ◌>>=◌ ◌>>◌
abbrev pub ◌>>=◌ {ℓ κ} : {A : Type ℓ} {B : Type κ} → D A → (A → D B) → D B
◌>>=◌ m k d s = and_then (m d s) (λ p. k p.0 p.1)

abbrev pub ◌>>◌ {ℓ κ} : {A : Type ℓ} {B : Type κ} → D A → D B → D B
◌>>◌ m k d s = and_then (m d s) (λ p. k p.1)

-- A command of the machine.
abbrev pub on_vm {ℓ} : {A : Type ℓ} → M A → D A
on_vm m d s = and_then (m s) (λ a. ok (a, d))

abbrev pub crash {ℓ} : {A : Type ℓ} → D A
crash d s = fault

abbrev pub change : (Dbg → Dbg) → D (Unit {0})
change f d = ok (tt, f d)

abbrev pub print : Message → D (Unit {0})
print m d = ok (tt, record d { printed = d.printed ++ m ∷ [] })

-- Memory of the debugger, which is read and written inside the block that was allocated.
unfoldable pub read_history : ℕ → D ℕ
read_history i d s = if ltb i d.history_allocated then ok (d.call_history i, d) s else fault

-- `call_history[call_history_top++] = v`
unfoldable pub push_history : ℕ → D (Unit {0})
push_history v d s =
    if ltb d.call_history_top d.history_allocated
    then ok
        (
          tt,
          record d {
            call_history = update d.call_history d.call_history_top v;
            call_history_top = d.call_history_top + 1;
          },
        )
        s
    else fault

unfoldable pub read_breakpoint : ℕ → D ℕ
read_breakpoint i d s = if ltb i d.brkpts_allocated then ok (d.brkpts_addrs i, d) s else fault

-- The bytes of a word of the source.
abbrev pub codes : String → List ℕ
codes String.[] = []
codes (String.◌∷◌ c t) = code c ∷ codes t
