-- ===== src/Machine/State.antt =====
-- The global variables of the program: `CPU_t` of include/cpu.h, `MArr_t` of include/marr.h, the
-- arrays of src/array.c, `Sock_t` of include/net.h, and the static variables of src/marr.c and
-- src/interpreter.c. Memory is a function from indices to cells beside the size of the block; what
-- `malloc` and `realloc` leave uninitialised is whatever the function holds there.
use integer_java_virtual_mac.Base.{ℕ, Bool, Option, List}

-- A pointer to a block: NULL, the block, or a block that has been freed.
pub data Pointer : Type 0 where
  null live dangling : Pointer

pub record Cpu : Type 0 where
  pub const_mem_size : ℕ
  pub code_mem_size : ℕ
  pub stack_size : ℕ
  pub const_mem : ℕ → ℕ
  pub code_mem : ℕ → ℕ
  pub stack : ℕ → ℕ
  pub const_block : Pointer
  pub code_block : Pointer
  pub stack_block : Pointer
  pub pc : ℕ
  pub sp : ℕ
  pub fp : ℕ
  pub lv : ℕ
  pub nv : ℕ
  pub error_flag : Bool
  pub halt_flag : Bool

-- A value is a pointer to an object that only this slot owns: the object itself, or `none` for
-- NULL.
pub record MArr {ℓ} (A : Type ℓ) : Type ℓ where
  pub size : ℕ
  pub map : ℕ → Bool
  pub values : ℕ → Option A

-- The block of an array: `cells 0` is the count, and the elements follow.
pub record Block : Type 0 where
  pub allocated : ℕ
  pub cells : ℕ → ℕ

pub record Addr : Type 0 where
  pub host : ℕ
  pub port : ℕ

pub record Sock : Type 0 where
  pub fd : ℕ
  pub fds : ℕ
  pub client : Bool
  pub server : Bool
  pub addr : Addr

-- The system calls of src/net.c with their arguments, and what the operating system answers.
pub data Call : Type 0 where
  socket : Call
  bind connect : ℕ → Addr → Call
  listen : ℕ → ℕ → Call
  accept recv shutdown close : ℕ → Call
  send : ℕ → ℕ → Call

pub record Reply : Type 0 where
  pub status : ℕ
  pub byte : ℕ
  pub peer : Addr

-- The network: the answers to come, how many have been given, and the calls made so far.
pub record Network : Type 0 where
  pub replies : ℕ → Reply
  pub given : ℕ
  pub calls : List Call

-- `heap_answers` says which of the next allocations succeed; after its end all of them do.
pub record Vm : Type 0 where
  pub cpu : Cpu
  pub arr_mem : MArr Block
  pub marked_arrays : Pointer
  pub net_conn : MArr Sock
  pub element_creations : ℕ
  pub next_op_wide : Bool
  pub in_file : List ℕ
  pub out_file : List ℕ
  pub heap_answers : List Bool
  pub network : Network
