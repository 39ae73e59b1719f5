-- ===== src/Opcode/Names.antt =====
-- `step` and `op_decode` know the same instructions.
use Prim.Native.String.{String}
use integer_java_virtual_mac.Base.{ℕ, Option, none, some, ◌≡◌, arith}
use integer_java_virtual_mac.Opcode.{
  Op, nop, bipush, ldc_w, iload, istore, pop, dup, swap, iadd, isub, iand, iinc, ifeq, iflt, icmpeq,
  goto, ireturn, ior, invokevirtual, wide, in_op, out, err, halt, newarray, iaload, iastore, gc,
  netbind, netconnect, netin, netout, netclose, decode, op_decode,
}

-- The mnemonics of docs/isa.md, and of what is no instruction.
abbrev pub mnemonic : Option Op → String
mnemonic none = "NULL"
mnemonic (some nop) = "NOP"
mnemonic (some bipush) = "BIPUSH"
mnemonic (some ldc_w) = "LDC_W"
mnemonic (some iload) = "ILOAD"
mnemonic (some istore) = "ISTORE"
mnemonic (some pop) = "POP"
mnemonic (some dup) = "DUP"
mnemonic (some swap) = "SWAP"
mnemonic (some iadd) = "IADD"
mnemonic (some isub) = "ISUB"
mnemonic (some iand) = "IAND"
mnemonic (some iinc) = "IINC"
mnemonic (some ifeq) = "IFEQ"
mnemonic (some iflt) = "IFLT"
mnemonic (some icmpeq) = "ICMPEQ"
mnemonic (some goto) = "GOTO"
mnemonic (some ireturn) = "IRETURN"
mnemonic (some ior) = "IOR"
mnemonic (some invokevirtual) = "INVOKEVIRTUAL"
mnemonic (some wide) = "WIDE"
mnemonic (some in_op) = "IN"
mnemonic (some out) = "OUT"
mnemonic (some err) = "ERR"
mnemonic (some halt) = "HALT"
mnemonic (some newarray) = "NEWARRAY"
mnemonic (some iaload) = "IALOAD"
mnemonic (some iastore) = "IASTORE"
mnemonic (some gc) = "GC"
mnemonic (some netbind) = "NETBIND"
mnemonic (some netconnect) = "NETCONNECT"
mnemonic (some netin) = "NETIN"
mnemonic (some netout) = "NETOUT"
mnemonic (some netclose) = "NETCLOSE"

-- The mnemonic that `op_decode` gives a byte is that of the instruction which `step` executes for
-- it, and it is "NULL" for a byte at which `step` has no instruction.
pub op_decode-decode : (b : ℕ) → op_decode b ≡ mnemonic (decode b)
unfolding op_decode decode
op_decode-decode b = ground arith
