-- ===== src/Machine/Command.antt =====
-- Commands over the machine: how a call of a C function ends.
use integer_java_virtual_mac.Base.{
  ℕ, ◌+◌, Bool, true, List, [], ◌∷◌, ◌++◌, ltb, ◌==◌, ◌≡◌, arith, if◌then◌else◌,
}
use integer_java_virtual_mac.Machine.State.{Pointer, null, live, dangling, Cpu, Call, Reply, Vm}

-- The messages with which the program gives up, by the function that prints them. Each is followed
-- by `destroy_ijvm_now`, which frees everything and exits.
pub data Error : Type 0 where
  pop_empty out_of_memory no_memory bad_constant bad_variable bad_jump : Error
  bad_map_index bad_element unclaimed_element zero_size smaller_size size_limit : Error
  too_many_arrays bad_array_size bad_array_reference no_array outside_array : Error
  bad_net_reference bad_socket_state bad_received bad_sent : Error
  beyond_code bad_frame bad_method push_failed bad_arguments bad_main : Error

-- `fault` is undefined behaviour, an access outside a block of memory; `out_of_fuel` is a loop of
-- the model that was given too few rounds.
pub data Run {ℓ} (A : Type ℓ) : Type ℓ where
  ok : A → Vm → Run A
  exit : Error → Vm → Run A
  fault : Run A
  out_of_fuel : Run A

abbrev pub M {ℓ} : Type ℓ → Type ℓ
M A = Vm → Run A

abbrev pub pure {ℓ} : {A : Type ℓ} → A → M A
pure = ok

abbrev pub destroy_ijvm_now {ℓ} : {A : Type ℓ} → Error → M A
destroy_ijvm_now = exit

abbrev pub and_then {ℓ κ} : {A : Type ℓ} {B : Type κ} → Run A → (A → M B) → Run B
and_then (ok a s) k = k a s
and_then (exit e s) k = exit e s
and_then fault k = fault
and_then out_of_fuel k = out_of_fuel

infixl 5 ◌>>=◌ ◌>>◌
abbrev pub ◌>>=◌ {ℓ κ} : {A : Type ℓ} {B : Type κ} → M A → (A → M B) → M B
◌>>=◌ m k s = and_then (m s) k

abbrev pub ◌>>◌ {ℓ κ} : {A : Type ℓ} {B : Type κ} → M A → M B → M B
◌>>◌ m k s = and_then (m s) (λ _. k)

abbrev pub modify : (Vm → Vm) → M (Unit {0})
modify f s = ok tt (f s)

abbrev pub modify_cpu : (Cpu → Cpu) → M (Unit {0})
modify_cpu f s = ok tt (record s { cpu = f s.cpu })

-- A guard that gives up when its test holds.
abbrev pub stop_if : Bool → Error → M (Unit {0})
stop_if b e s = if b then exit e s else ok tt s

abbrev pub when : Bool → M (Unit {0}) → M (Unit {0})
when b m s = if b then m s else ok tt s

-- `free` leaves the pointer as it is: that of NULL does nothing, and a second one is undefined.
unfoldable pub free_block : Pointer → M Pointer
free_block null = pure null
free_block live = pure dangling
free_block dangling = λ _. fault

-- The answer of the allocator to the next request.
abbrev pub answer : List Bool → Bool
answer [] = true
answer (b ∷ _) = b

abbrev pub later_answers : List Bool → List Bool
later_answers [] = []
later_answers (_ ∷ bs) = bs

unfoldable pub alloc : M Bool
alloc s = ok (answer s.heap_answers) (record s { heap_answers = later_answers s.heap_answers })

-- The allocator has no failure in store.
abbrev pub AllocSucceeds : Vm → Type 0
AllocSucceeds s = s.heap_answers ≡ []

pub alloc-AllocSucceeds : (s : Vm) → AllocSucceeds s → alloc s ≡ ok true s
unfolding alloc
alloc-AllocSucceeds s h = ground arith

-- A cell of a memory that is written anew.
abbrev pub update {ℓ} : {A : Type ℓ} → (ℕ → A) → ℕ → A → ℕ → A
update f i v j = if j == i then v else f j

unfoldable pub read_stack : ℕ → M ℕ
read_stack i s = if ltb i s.cpu.stack_size then ok (s.cpu.stack i) s else fault

unfoldable pub write_stack : ℕ → ℕ → M (Unit {0})
write_stack i v s =
    if ltb i s.cpu.stack_size
    then ok tt (record s { cpu = record (s.cpu) { stack = update s.cpu.stack i v } })
    else fault

-- A system call takes the next answer and is logged.
unfoldable pub system : Call → M Reply
system c s =
    let n = s.network in
    ok (n.replies n.given)
      (record s { network = record n { given = n.given + 1; calls = n.calls ++ c ∷ [] } })
