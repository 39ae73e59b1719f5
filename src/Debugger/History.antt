-- ===== src/Debugger/History.antt =====
-- The call history of src/ijdb.c: a call is its arguments, the last one first, their number and the
-- address of the method.
use integer_java_virtual_mac.Base.{
  ℕ, zero, suc, ◌+◌, Bool, true, false, not, ◌&&◌, ◌||◌, Option, none, some, List, [], ◌∷◌, ◌==◌,
  ltb, if◌then◌else◌,
}
use integer_java_virtual_mac.Base.Word.{wrap, sub_word}
use integer_java_virtual_mac.Machine.{ok, alloc, read_stack}
use integer_java_virtual_mac.Util.{get_code_byte, get_code_short}
use integer_java_virtual_mac.Cpu.{get_constant}
use integer_java_virtual_mac.Opcode.{Op, invokevirtual, ireturn, decode}
use integer_java_virtual_mac.Debugger.State.{func_call, breakpoint_msg}
use integer_java_virtual_mac.Debugger.Sequence.{
  D, done, ◌>>=◌, ◌>>◌, on_vm, crash, change, print, read_history, push_history,
}
use integer_java_virtual_mac.Debugger.Labels.{addr_to_func_name}

-- `malloc` is not tested here.
unfoldable pub init_call_history : D (Unit {0})
init_call_history = do
  enough ← on_vm alloc
  if enough
      then change (λ d. record d {
        history_allocated = 2;
        call_history = λ i. if ltb i 2 then 0 else d.call_history i;
        call_history_size = 2;
        call_history_top = 2;
      })
      else crash

-- The copy of the arguments, with the ones that are left.
unfoldable pub store_args : ℕ → ℕ → D (Unit {0})
store_args zero i = done tt
store_args (suc n) i = do
  v ← (λ d s. on_vm (read_stack (sub_word s.cpu.sp i)) d s)
  push_history v
  store_args n (i + 1)

-- Room for `need` more elements: false, with the flag to quit, if there is none. The size that the
-- program keeps is the new one all the same.
unfoldable pub history_room : ℕ → D Bool
history_room need = do
  d ← (λ d. ok (d, d))
  if ltb d.call_history_size (wrap (d.call_history_top + need))
      then (do
        let size = wrap (wrap (d.call_history_top + need) + 1024)
        change (λ e. record e { call_history_size = size })
        enough ← on_vm alloc
        if enough
            then (do change (λ e. record e { history_allocated = size }); done true)
            else (do change (λ e. record e { quit_flag = true }); done false))
      else done true

unfoldable pub store_func_call : D (Unit {0})
store_func_call = do
  i ← (λ d s. on_vm (get_code_short (wrap (s.cpu.pc + 1))) d s)
  func_addr ← on_vm (get_constant i)
  func_num_args ← on_vm (get_code_short func_addr)
  room ← history_room (wrap (2 + func_num_args))
  if room
      then (do store_args func_num_args 0; push_history func_num_args; push_history func_addr)
      else done tt

unfoldable pub remove_last_func_call : D (Unit {0})
remove_last_func_call = do
  change (λ d. record d { call_history_top = sub_word d.call_history_top 2 })
  n ← (λ d. read_history d.call_history_top d)
  change (λ d. record d { call_history_top = sub_word d.call_history_top n })

abbrev pub record_op : Option Op → D (Unit {0})
record_op (some invokevirtual) = store_func_call
record_op (some ireturn) = remove_last_func_call
record_op _ = done tt

unfoldable pub create_call_history : D (Unit {0})
create_call_history = do op ← (λ d s. on_vm (get_code_byte s.cpu.pc) d s); record_op (decode op)

-- The `n` arguments below `offset`, from the first one on, and the offset below them.
unfoldable pub read_args : ℕ → ℕ → D (List ℕ × ℕ)
read_args zero offset = done ([], offset)
read_args (suc n) offset = do
  v ← read_history (sub_word offset 1)
  (vs, rest) ← read_args n (sub_word offset 1)
  done (v ∷ vs, rest)

-- The arguments of the call whose address is at `below`, and the offset below the call. At the very
-- bottom there is an address and no number of arguments.
unfoldable pub call_args : ℕ → D (List ℕ × ℕ)
call_args below =
    if below == 0
    then done ([], below)
    else (do n ← read_history (sub_word below 1); read_args n (sub_word below 1))

-- The loop of `print_func_calls`, with the rounds that are left and the number of calls printed.
unfoldable pub print_calls : ℕ → ℕ → ℕ → ℕ → D (Unit {0})
print_calls zero n offset count = done tt
print_calls (suc fuel) n offset count =
    if (offset == 0) || (not (n == 0) && (count == n)) then done tt else (do
      addr ← read_history (sub_word offset 1)
      name ← addr_to_func_name addr
      (vs, rest) ← call_args (sub_word offset 1)
      print (func_call (if n == 0 then some (count + 1) else none) addr name vs)
      print_calls fuel n rest (count + 1))

-- Every round passes an element of the history.
unfoldable pub print_func_calls : ℕ → D (Unit {0})
print_func_calls n d = print_calls (suc d.call_history_top) n d.call_history_top 0 d

unfoldable pub print_breakpoint_msg : ℕ → D (Unit {0})
print_breakpoint_msg id = do print (breakpoint_msg id); print_func_calls 1
