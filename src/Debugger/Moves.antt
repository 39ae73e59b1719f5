-- ===== src/Debugger/Moves.antt =====
-- What the debugger does to the machine while a program runs: it steps, and its own allocations may
-- collect garbage.
use integer_java_virtual_mac.Base.{
  ℕ, zero, suc, Bool, true, false, Option, none, some, ◌≡◌, refl, ◌∙◌, if◌then◌else◌, length, ◌==◌,
}
use integer_java_virtual_mac.Machine.{
  Vm, Run, Error, ok, exit, fault, out_of_fuel, M, pure, and_then, alloc,
}
use integer_java_virtual_mac.Collector.{arr_gc}
use integer_java_virtual_mac.Step.{step}
use integer_java_virtual_mac.Symbols.{
  Text, DebugData, dup_retry, str_dup, SymbolBlock, get_name, name_at, or_fault,
}
use integer_java_virtual_mac.Debugger.{Dbg, ProgramState}

-- The machine `t` is reached from `s` by steps, by answers that the allocator has given, and by
-- collections.
pub data Moves (wides : ℕ) (s : Vm) : Vm → Type 0 where
  here : Moves wides s s
  steps : {t u : Vm} {b : Bool} → Moves wides s t → step wides t ≡ ok b u → Moves wides s u
  allocates : {t u : Vm} {b : Bool} → Moves wides s t → alloc t ≡ ok b u → Moves wides s u
  collects : {t u : Vm} {n : ℕ} → Moves wides s t → arr_gc t ≡ ok n u → Moves wides s u

Moves-trans : (wides : ℕ) {s t u : Vm} → Moves wides s t → Moves wides t u → Moves wides s u
Moves-trans wides f here = f
Moves-trans wides f (steps g e) = steps (Moves-trans wides f g) e
Moves-trans wides f (allocates g e) = allocates (Moves-trans wides f g) e
Moves-trans wides f (collects g e) = collects (Moves-trans wides f g) e

-- What running a program leaves alone in the debugger.
pub record Settings : Type 0 where
  pub state : ProgramState
  pub path : Option Text
  pub num : ℕ
  pub allocated : ℕ
  pub addrs : ℕ → ℕ
  pub data_of : DebugData

abbrev pub settings : Dbg → Settings
settings d = record {
  state = d.prog_state;
  path = d.last_prog_path;
  num = d.brkpts_num;
  allocated = d.brkpts_allocated;
  addrs = d.brkpts_addrs;
  data_of = d.debug_data;
}

pub record IsDebugged (wides : ℕ) (d : Dbg) (s : Vm) (d' : Dbg) (t : Vm) : Type 0 where
  pub moves : Moves wides s t
  pub same : settings d' ≡ settings d
  pub quits : d.quit_flag ≡ true → d'.quit_flag ≡ true

-- A command that does no more than that if it returns.
pub data Debugged {A : Type 0} (wides : ℕ) (d : Dbg) (s : Vm) : Run (A × Dbg) → Type 0 where
  debugged :
      {a : A} {d' : Dbg} {t : Vm} → IsDebugged wides d s d' t → Debugged wides d s (ok (a, d') t)
  debug_exit : {e : Error} {t : Vm} → Debugged wides d s (exit e t)
  debug_fault : Debugged wides d s fault
  debug_fuel : Debugged wides d s out_of_fuel

module _ (wides : ℕ) where
  pub IsDebugged-trans :
      {d d' d'' : Dbg} {s t u : Vm}
      → IsDebugged wides d s d' t
      → IsDebugged wides d' t d'' u
      → IsDebugged wides d s d'' u
  IsDebugged-trans f g = record {
    moves = Moves-trans wides f.moves g.moves;
    same = g.same ∙ f.same;
    quits = λ h. g.quits (f.quits h);
  }

  -- A change of other fields.
  pub Debugged-change :
      (d d' : Dbg) (s : Vm)
      → settings d' ≡ settings d
      → (d.quit_flag ≡ true → d'.quit_flag ≡ true)
      → IsDebugged wides d s d' s
  Debugged-change d d' s e q = record { moves = here; same = e; quits = q }

  pub Debugged-done : {A : Type 0} (a : A) (d : Dbg) (s : Vm) → Debugged wides d s (ok (a, d) s)
  Debugged-done a d s = debugged (Debugged-change d d s refl (λ h. h))

  pub Debugged-weaken :
      {A : Type 0} (d d' : Dbg) (s t : Vm) {r : Run (A × Dbg)}
      → IsDebugged wides d s d' t
      → Debugged wides d' t r
      → Debugged wides d s r
  Debugged-weaken d d' s t f (debugged g) = debugged (IsDebugged-trans f g)
  Debugged-weaken d d' s t f debug_exit = debug_exit
  Debugged-weaken d d' s t f debug_fault = debug_fault
  Debugged-weaken d d' s t f debug_fuel = debug_fuel

  pub Debugged-bind :
      {A B : Type 0} (d : Dbg) (s : Vm) {r : Run (A × Dbg)} (k : A → Dbg → Vm → Run (B × Dbg))
      → Debugged wides d s r
      → ((a : A) (d' : Dbg) (t : Vm) → Debugged wides d' t (k a d' t))
      → Debugged wides d s (and_then r λ p. k p.0 p.1)
  Debugged-bind d s k (debugged {a} {d'} {t} f) next = Debugged-weaken d d' s t f (next a d' t)
  Debugged-bind d s k debug_exit next = debug_exit
  Debugged-bind d s k debug_fault next = debug_fault
  Debugged-bind d s k debug_fuel next = debug_fuel

  pub Debugged-if :
      {A : Type 0} (b : Bool) (d : Dbg) (s : Vm) {x y : Run (A × Dbg)}
      → Debugged wides d s x
      → Debugged wides d s y
      → Debugged wides d s (if b then x else y)
  Debugged-if true d s l r = l
  Debugged-if false d s l r = r

-- A command of the machine that moves it if it returns.
pub data Moved {A : Type 0} (wides : ℕ) (s : Vm) : Run A → Type 0 where
  moved : {a : A} {t : Vm} → Moves wides s t → Moved wides s (ok a t)
  move_exit : {e : Error} {t : Vm} → Moved wides s (exit e t)
  move_fault : Moved wides s fault
  move_fuel : Moved wides s out_of_fuel

module _ (wides : ℕ) where
  pub on_vm-Debugged :
      {A : Type 0} (d : Dbg) (s : Vm) {r : Run A}
      → Moved wides s r
      → Debugged wides d s (and_then r λ a. ok (a, d))
  on_vm-Debugged d s (moved m) = debugged (record { moves = m; same = refl; quits = λ h. h })
  on_vm-Debugged d s move_exit = debug_exit
  on_vm-Debugged d s move_fault = debug_fault
  on_vm-Debugged d s move_fuel = debug_fuel

  Moved-weaken :
      {A : Type 0} (s t : Vm) {r : Run A} → Moves wides s t → Moved wides t r → Moved wides s r
  Moved-weaken s t f (moved g) = moved (Moves-trans wides f g)
  Moved-weaken s t f move_exit = move_exit
  Moved-weaken s t f move_fault = move_fault
  Moved-weaken s t f move_fuel = move_fuel

  pub Moved-bind :
      {A B : Type 0} (s : Vm) {r : Run A} (k : A → M B)
      → Moved wides s r
      → ((a : A) (t : Vm) → Moved wides t (k a t))
      → Moved wides s (and_then r k)
  Moved-bind s k (moved {a} {t} f) next = Moved-weaken s t f (next a t)
  Moved-bind s k move_exit next = move_exit
  Moved-bind s k move_fault next = move_fault
  Moved-bind s k move_fuel next = move_fuel

  -- A run is moved by its own kind of move.
  pub Moved-by :
      {A : Type 0} (s : Vm) (r : Run A)
      → ((a : A) (t : Vm) → r ≡ ok a t → Moves wides s t)
      → Moved wides s r
  Moved-by s (ok a t) f = moved (f a t refl)
  Moved-by s (exit e t) f = move_exit
  Moved-by s fault f = move_fault
  Moved-by s out_of_fuel f = move_fuel

  pub step-Moved : (s : Vm) → Moved wides s (step wides s)
  step-Moved s = Moved-by s (step wides s) λ b t e. steps here e

  pub alloc-Moved : (s : Vm) → Moved wides s (alloc s)
  alloc-Moved s = Moved-by s (alloc s) λ b t e. allocates here e

  arr_gc-Moved : (s : Vm) → Moved wides s (arr_gc s)
  arr_gc-Moved s = Moved-by s (arr_gc s) λ n t e. collects here e

  Moved-if :
      {A : Type 0} (b : Bool) (s : Vm) (m k : M A)
      → Moved wides s (m s)
      → Moved wides s (k s)
      → Moved wides s ((if b then m else k) s)
  Moved-if true s m k l r = l
  Moved-if false s m k l r = r

  dup_retry-Moved : (fuel : ℕ) (t : Text) (s : Vm) → Moved wides s (dup_retry fuel t s)
  unfolding dup_retry
  dup_retry-Moved zero t s = move_fuel
  dup_retry-Moved (suc fuel) t s = Moved-bind s _ (alloc-Moved s) λ enough u.
      Moved-if enough u (pure (some t)) _ (moved here) (
        Moved-bind u _ (arr_gc-Moved u) λ freed v.
          Moved-if (freed == 0) v (pure none) (dup_retry fuel t) (moved here)
            (dup_retry-Moved fuel t v))

  str_dup-Moved : (t : Text) (s : Vm) → Moved wides s (str_dup t s)
  unfolding str_dup
  str_dup-Moved t s = dup_retry-Moved (suc (length s.heap_answers)) t s

  or_fault-Moved : (o : Option Text) (s : Vm) → Moved wides s (or_fault o s)
  or_fault-Moved none s = move_fault
  or_fault-Moved (some t) s = moved here

  pub get_name-Moved : (b : SymbolBlock) (i : ℕ) (s : Vm) → Moved wides s (get_name b i s)
  unfolding get_name
  get_name-Moved b i s = Moved-bind s _ (or_fault-Moved (name_at b i) s) λ t u. str_dup-Moved t u
