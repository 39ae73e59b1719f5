-- ===== src/Lib.antt =====
-- A model of the IJVM interpreter: the processor and its stack, arrays with their garbage collector,
-- network connections, the instructions, the loader of binaries, the initialisation, and the debugger
-- with the labels that it reads.
--
-- The parts, and the files that model them (paths from the root of the repository):
--   include/cpu.h, include/marr.h, include/net.h: Machine/State, the global variables as one record
--   src/cpu.c: Cpu; its theorems: Cpu/Stack, Cpu/Locals, Cpu/Jump
--   src/marr.c: Marr, what needs no collection; Claim, what may collect garbage; Claim/Free; Marr/Slots,
--     the invariant of its slots
--   src/array.c: Refs (references), Collector (arr_gc and its two phases) and Arrays (arr_create,
--     arr_get, arr_set, arr_destroy); Refs/Digits, Collector/Mark, Collector/Sweep,
--     Collector/Collect, Collector/Stray, Arrays/Access,
--     Arrays/Store, Arrays/Create, Arrays/Safe, Arrays/Sequence and Arrays/Refine (the store of elements)
--   src/net.c: Net; Net/Close, Net/Destroy, Net/Data (the data), Net/Connect
--   include/bytecode.h, op_decode of src/util.c: Opcode; Opcode/Names
--   src/interpreter.c: Interpreter/Args (arguments), Interpreter/Compute (stack and variables),
--     Interpreter/Control (jumps, calls, returns), Interpreter/Extend (input, output, arrays,
--     network), Step (step, finished, run); Interpreter/Fetch, Frames, Calls, Returns,
--     Operands, Jumps, Variables, Step/Variables
--   src/util.c: Util; Util/Power, Util/Bytes
--   src/loader.c: Loader; Loader/Binary, Loader/Accepts
--   src/debug_data_loader.c, str_dup of src/util.c: Symbols, Symbols/Memory; Symbols/Names,
--     Labels, Blocks, Load, Cut
--   src/ijdb.c, include/ijdb.h: Debugger/State and Debugger/Sequence (the state of the debugger, and sequences of
--     commands), Labels (names, addresses, breakpoints), History (the call history), Session (loading,
--     stepping, running), Commands (exec_...), Prompt (cmd_decoder, main). Debugger/Calls, Store and
--     Record are about the history as a stack of calls, Moves, Recording and Running about what a
--     command does to the machine, Trace and Follow about a whole run, Fresh, Restart and Dangling
--     about loading; Backtrace, Breakpoints, Loop, Names, Idle, Parts
--   src/main.c, destroy_ijvm_now of src/terminate.c: Main; Main/Whole
--   print_cpu_... of src/util.c, arr_print, net_print, the end of step under DEBUG: Dump; Dump/Trace,
--     Numbers (the numbers in an output), Line
--   src/init.c, destroy_ijvm of src/terminate.c: Init; Init/Size, Init/Frame, Init/Vars,
--     Init/Start, Init/Destroy
-- A module Kept of a part, and Machine/Stays, are about what the part leaves alone; Step/Kept puts
-- them together. A module Sound of a part, and Marr/Sound, are about the invariant of the slots of the
-- mapped arrays and about fuel; Step/Sound and Step/Rounds put them together.
-- A module Words of a part, FrameWords and HostWords of Interpreter, and Machine/Words, say that the
-- numbers of the machine stay 32-bit patterns; Step/Words puts them together.
-- A function of the program is the definition of the same name. A loop or a part of a function that
-- is a definition of its own says so above it. An instruction calls the operations of the processor,
-- of arrays and of connections; arrays and connections are kept in mapped arrays; an allocation that
-- fails, and every hundredth search for a free slot, calls the garbage collector, which reads the
-- stack of the processor.
--
-- A command takes the machine and returns a value and a machine (`ok`), ends the program with a
-- message (`exit`, for `destroy_ijvm_now`, whose work is `process` of Main), or has undefined behaviour (`fault`, an access outside a
-- block of memory or through a NULL pointer). Each message is one constructor of `Error`.
--
-- Integers: a word, an int and a uint32_t are patterns below 2 ^ 32; signed tests read the top bit,
-- and sums wrap. Where C leaves the overflow of a signed sum undefined the model wraps. A char is
-- signed. Memory is a function beside the size of its block; the cells that malloc and realloc leave
-- uninitialised are arbitrary. A slot of a mapped array owns the object behind its pointer, so a
-- write through the pointer is a write to the slot. A pointer to a block of the processor, or
-- to the marks of the garbage collector, is NULL, live or dangling, and free of a dangling one is
-- undefined.
--
-- Parameters: the answers of the allocator are a list in the machine, after whose end every
-- allocation succeeds, one of size 0 included; the answers of the operating system to the calls of
-- src/net.c are a function in the machine, and the calls are logged. The debugger is given the files
-- that can be opened, whether the file for the output can, the bytes of stdin, the lines that are
-- typed, and whether the compiler leaves a spare byte behind an array of so many bytes, since cmd_decoder
-- writes one behind its copy of the line, which is undefined behaviour without one; main of src/main.c is given what fopen answers for each argument. Addresses stay in the byte
-- order of the host.
--
-- Fuel: a function that calls itself after a failed allocation has one round for each answer that the
-- allocator has in store and one more, since each failure uses one up. The loop that enlarges the
-- stack has twelve rounds: from one word on it has met the limit of 2 ^ 32 bytes after ten. The scan
-- of the code of main has one round for each byte and one more. `step` has one unit for each WIDE in
-- a row, of which there are no more than bytes of code, and `run` and `run_loop` one for each instruction. A name of a symbol has one round for each
-- byte of the file that is left and one for each answer of the allocator; a backtrace one for each
-- element of the history.
--
-- `step` is modelled as it is built without DEBUG; Dump is what it writes with it.
--
-- Not modelled: marr_print, which nothing calls, the texts of print_usage and the times of src/main.c,
-- what dprintf writes in src/debug_data_loader.c; what destroy_debug_data and destroy_debugger release,
-- whose pointers are set anew at once; and the history of readline, but for its last line.
pub mod Base
pub mod Machine
pub mod Refs
pub mod Marr
pub mod Collector
pub mod Claim
pub mod Cpu
pub mod Arrays
pub mod Net
pub mod Opcode
pub mod Interpreter
pub mod Step
pub mod Util
pub mod Loader
pub mod Init
pub mod Symbols
pub mod Debugger
pub mod Dump
pub mod Main
pub mod Tests
