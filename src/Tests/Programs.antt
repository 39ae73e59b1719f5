-- ===== src/Tests/Programs.antt =====
-- A machine in its initial state, and small programs.
use integer_java_virtual_mac.Base.{
  ◌<◌, zero, suc, arith, ℕ, ◌≡◌, refl, false, List, [], ◌∷◌, get_or, length, ◌*◌,
}
use integer_java_virtual_mac.Base.Word.{minus_one}
use integer_java_virtual_mac.Machine.{live, Vm, Run, ok, exit, fault, out_of_fuel}
use integer_java_virtual_mac.Refs.{ref_to_index, index_to_ref, is_ref}
use integer_java_virtual_mac.Marr.{
  no_slots, marr_check_marked, marr_get_element, marr_remove_element,
}
use integer_java_virtual_mac.Collector.{
  arr_remove, mark_word, mark_stack, read_cell, mark_elements, deref, mark_slot, mark_children,
  mark_arrays, sweep_slot, sweep_arrays, new_marks, arr_gc,
}
use integer_java_virtual_mac.Claim.{
  first_free, count_creation, get_free_index, marr_add_element, resize_retry, marr_resize,
  marr_init,
}
use integer_java_virtual_mac.Cpu.{
  octuple_retry, octuple_stack_size, enlarge, stack_push, stack_pop, get_constant,
  get_local_variable, update_local_variable, jump,
}
use integer_java_virtual_mac.Arrays.{
  init_if_needed, store_element, arr_store, create_retry, arr_create, block_of, arr_check_bounds,
  arr_get, write_cell, arr_set,
}
use integer_java_virtual_mac.Net.{
  net_check_ref, store_sock, socket_store, socket_create, deref_sock, get_sock, put_sock, serve,
  net_bind, net_connect, data_fd, net_recv, net_send, shut, net_close,
}
use integer_java_virtual_mac.Opcode.{decode}
use integer_java_virtual_mac.Interpreter.{
  next_byte, get_arg_byte, get_arg_short, exec_op_nop, exec_op_bipush, exec_op_ldc_w,
  variable_index, exec_op_iload, exec_op_istore, exec_op_pop, exec_op_dup, exec_op_swap,
  exec_op_iadd, exec_op_isub, exec_op_iand, exec_op_ior, exec_op_iinc, jump_offset, exec_op_ifeq,
  exec_op_iflt, exec_op_icmpeq, exec_op_goto, outside_frame, exec_op_ireturn, clear_stack,
  checked_push, save_registers, open_frame, exec_op_invokevirtual, exec_op_err, exec_op_halt,
  exec_op_in, exec_op_out, exec_op_newarray, exec_op_iaload, exec_op_iastore, exec_op_gc,
  exec_op_netbind, exec_op_netconnect, exec_op_netin, exec_op_netout, exec_op_netclose,
}
use integer_java_virtual_mac.Step.{exec_op_wide, execute, dispatch, step, finished, run}
use integer_java_virtual_mac.Machine.{free_block, alloc, read_stack, write_stack, system}

abbrev pub machine : List ℕ → List ℕ → Vm
machine code consts = record {
  cpu = record {
    const_mem_size = 4 * length consts;
    code_mem_size = length code;
    stack_size = 4096;
    const_mem = λ i. get_or consts i 0;
    code_mem = λ i. get_or code i 0;
    stack = λ _. 0;
    const_block = live;
    code_block = live;
    stack_block = live;
    pc = 0;
    sp = minus_one;
    fp = 0;
    lv = 0;
    nv = 0;
    error_flag = false;
    halt_flag = false;
  };
  arr_mem = no_slots;
  marked_arrays = live;
  net_conn = no_slots;
  element_creations = 0;
  next_op_wide = false;
  in_file = [];
  out_file = [];
  heap_answers = [];
  network = record {
    replies = λ _. record { status = 0; byte = 0; peer = record { host = 0; port = 0 } };
    given = 0;
    calls = [];
  };
}

abbrev pub AreBytes : List ℕ → Type 0
AreBytes [] = Unit
AreBytes (b ∷ bs) = (b < 256) × AreBytes bs

pub get_or-AreBytes : (bs : List ℕ) (i : ℕ) → AreBytes bs → get_or bs i 0 < 256
get_or-AreBytes [] i h = omega arith
get_or-AreBytes (b ∷ bs) zero (h, hs) = h
get_or-AreBytes (b ∷ bs) (suc i) (h, hs) = get_or-AreBytes bs i hs

-- What a run prints.
abbrev pub output : {A : Type 0} → Run A → List ℕ
output (ok _ s) = s.out_file
output (exit _ s) = s.out_file
output fault = 1000 ∷ []
output out_of_fuel = 1001 ∷ []

-- `run` with all that it calls unfolded.
unfoldable pub execute_program : ℕ → Vm → Run (Unit {0})
unfolding ref_to_index index_to_ref is_ref marr_check_marked marr_get_element marr_remove_element
    arr_remove mark_word mark_stack read_cell mark_elements deref mark_slot mark_children
    mark_arrays sweep_slot sweep_arrays new_marks free_block arr_gc first_free count_creation
    get_free_index marr_add_element resize_retry marr_resize marr_init octuple_retry
    octuple_stack_size enlarge stack_push stack_pop get_constant get_local_variable
    update_local_variable jump init_if_needed store_element arr_store create_retry arr_create
    block_of arr_check_bounds arr_get write_cell arr_set net_check_ref store_sock socket_store
    socket_create deref_sock get_sock put_sock serve net_bind net_connect data_fd net_recv net_send
    shut net_close decode next_byte get_arg_byte get_arg_short exec_op_nop exec_op_bipush
    exec_op_ldc_w variable_index exec_op_iload exec_op_istore exec_op_pop exec_op_dup exec_op_swap
    exec_op_iadd exec_op_isub exec_op_iand exec_op_ior exec_op_iinc jump_offset exec_op_ifeq
    exec_op_iflt exec_op_icmpeq exec_op_goto outside_frame exec_op_ireturn clear_stack checked_push
    save_registers open_frame exec_op_invokevirtual exec_op_err exec_op_halt exec_op_in exec_op_out
    exec_op_newarray exec_op_iaload exec_op_iastore exec_op_gc exec_op_netbind exec_op_netconnect
    exec_op_netin exec_op_netout exec_op_netclose exec_op_wide execute dispatch step finished run
    alloc read_stack write_stack system
execute_program fuel = run 3 fuel

hello :
    output (
      execute_program 10
        (machine (0x10 ∷ 72 ∷ 0xfd ∷ 0x10 ∷ 3 ∷ 0x10 ∷ 62 ∷ 0x60 ∷ 0xfd ∷ 0xff ∷ []) []))
    ≡ 72 ∷ 65 ∷ []
unfolding execute_program
hello = refl
