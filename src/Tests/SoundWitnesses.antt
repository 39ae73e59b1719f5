-- ===== src/Tests/SoundWitnesses.antt =====
-- The theorems on the slots of the mapped arrays at concrete machines.
use integer_java_virtual_mac.Base.{
  true, false, ◌≡◌, ◌==◌, refl, List, [], ◌∷◌, some, none, if◌then◌else◌, arith,
}
use integer_java_virtual_mac.Machine.{Vm, Sock, Ends, ok}
use integer_java_virtual_mac.Marr.Slots.{HasObjects}
use integer_java_virtual_mac.Marr.Sound.{Sound}
use integer_java_virtual_mac.Arrays.{new_block, arr_get, arr_set}
use integer_java_virtual_mac.Arrays.Safe.{arr_get-arr_set-Ends}
use integer_java_virtual_mac.Arrays.Sequence.{
  Access, read, write, access_all, store_of, meaning_all,
}
use integer_java_virtual_mac.Arrays.Refine.{HasSized, Agrees, access_all-Agrees}
use integer_java_virtual_mac.Init.{destroy_ijvm}
use integer_java_virtual_mac.Init.Destroy.{released, destroy_ijvm_lem}
use integer_java_virtual_mac.Step.{step, run}
use integer_java_virtual_mac.Step.Sound.{step-Sound}
use integer_java_virtual_mac.Step.Rounds.{Ran, IsReady, run-Ran}
use integer_java_virtual_mac.Tests.Programs.{machine}

-- BIPUSH 3, NEWARRAY, WIDE ISTORE 1, HALT, with an array of two elements in slot 1 of four.
abbrev array_machine : Vm
array_machine =
    let s = machine (0x10 ∷ 3 ∷ 0xd1 ∷ 0xc4 ∷ 0x36 ∷ 0 ∷ 1 ∷ 0xff ∷ []) [] in
    record s {
      arr_mem = record {
        size = 4;
        map = λ i. i == 1;
        values = λ i. if i == 1 then some (new_block 2) else none;
      };
    }

array_machine-HasObjects : HasObjects array_machine
array_machine-HasObjects = record {
  arrays_hold =
      λ i used. let e : i ≡ 1 = ground arith in (ground arith, new_block 2, rw e refl, refl);
  socks_hold = λ i used. cc;
  blocks = record {
    marks_left = λ e. cc;
    const_left = λ e. cc;
    code_left = λ e. cc;
    stack_left = λ e. cc;
  };
}

step-Sound_example : Sound HasObjects (step 9 array_machine)
step-Sound_example = step-Sound 8 array_machine array_machine-HasObjects (omega arith) (omega arith)

array_machine-IsReady : IsReady 8 array_machine
array_machine-IsReady = record {
  objects = array_machine-HasObjects;
  code_int = omega arith;
  fuel = omega arith;
}

run-Ran_example : Ran 8 20 array_machine (run 9 20 array_machine)
run-Ran_example = run-Ran 8 20 array_machine array_machine-IsReady

-- Index 7 of the array in slot 1.
arr_get-arr_set-Ends_example :
    Ends (λ x t. t ≡ array_machine) (λ e t. t ≡ array_machine) (arr_get 0xaa00_001a 7 array_machine)
    × Ends (λ x t. HasObjects t) (λ e t. t ≡ array_machine) (arr_set 0xaa00_001a 7 5 array_machine)
arr_get-arr_set-Ends_example =
    arr_get-arr_set-Ends 0xaa00_001a 7 array_machine array_machine-HasObjects 5

array_machine-HasSized : HasSized array_machine
array_machine-HasSized i used =
    let e : i ≡ 1 = ground arith in
    (ground arith, new_block 2, rw e refl, record { whole = refl; count_int = omega arith })

-- A write, a read of it, a read of the other element, and one outside the array.
abbrev accesses : List Access
accesses = write 0xaa00_001a 0 5 ∷ read 0xaa00_001a 0 ∷ read 0xaa00_001a 1 ∷ read 0xaa00_001a 2 ∷ []

access_all-Agrees_example :
    Agrees (meaning_all accesses (store_of array_machine)) (access_all accesses array_machine)
access_all-Agrees_example = access_all-Agrees accesses array_machine array_machine-HasSized

-- A client's connection, in slot 0.
abbrev client_sock : Sock
client_sock = record {
  fd = 4;
  fds = 0;
  client = true;
  server = false;
  addr = record { host = 1; port = 80 };
}

abbrev client_machine : Vm
client_machine = record array_machine {
  net_conn = record {
    size = 16;
    map = λ i. i == 0;
    values = λ i. if i == 0 then some client_sock else none;
  };
}

client_machine-HasObjects : HasObjects client_machine
client_machine-HasObjects = record {
  arrays_hold = array_machine-HasObjects.arrays_hold;
  socks_hold = λ i used. let e : i ≡ 0 = ground arith in (ground arith, client_sock, rw e refl, tt);
  blocks = array_machine-HasObjects.blocks;
}

destroy_ijvm_lem_example : destroy_ijvm client_machine ≡ ok tt (released client_machine)
destroy_ijvm_lem_example = destroy_ijvm_lem client_machine client_machine-HasObjects (omega arith)
