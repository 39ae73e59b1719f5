-- ===== src/Opcode.antt =====
-- The instruction set: the byte of each instruction (include/bytecode.h) and its mnemonic
-- (src/util.c).
pub mod Names
use Prim.Native.String.{String}
use integer_java_virtual_mac.Base.{ℕ, Option, none, some, ◌==◌, if◌then◌else◌}

pub data Op : Type 0 where
  nop bipush ldc_w iload istore pop dup swap iadd isub iand iinc ifeq iflt icmpeq goto : Op
  ireturn ior invokevirtual wide in_op out err halt newarray iaload iastore gc : Op
  netbind netconnect netin netout netclose : Op

-- The labels of the `switch` in `step`.
unfoldable pub decode : ℕ → Option Op
decode b =
    if b == 0x00
    then some nop
    else if b == 0x10
    then some bipush
    else if b == 0x13
    then some ldc_w
    else if b == 0x15
    then some iload
    else if b == 0x36
    then some istore
    else if b == 0x57
    then some pop
    else if b == 0x59
    then some dup
    else if b == 0x5f
    then some swap
    else if b == 0x60
    then some iadd
    else if b == 0x64
    then some isub
    else if b == 0x7e
    then some iand
    else if b == 0x84
    then some iinc
    else if b == 0x99
    then some ifeq
    else if b == 0x9b
    then some iflt
    else if b == 0x9f
    then some icmpeq
    else if b == 0xa7
    then some goto
    else if b == 0xac
    then some ireturn
    else if b == 0xb0
    then some ior
    else if b == 0xb6
    then some invokevirtual
    else if b == 0xc4
    then some wide
    else if b == 0xfc
    then some in_op
    else if b == 0xfd
    then some out
    else if b == 0xfe
    then some err
    else if b == 0xff
    then some halt
    else if b == 0xd1
    then some newarray
    else if b == 0xd2
    then some iaload
    else if b == 0xd3
    then some iastore
    else if b == 0xd4
    then some gc
    else if b == 0xe1
    then some netbind
    else if b == 0xe2
    then some netconnect
    else if b == 0xe3
    then some netin
    else if b == 0xe4
    then some netout
    else if b == 0xe5
    then some netclose
    else none

unfoldable pub op_decode : ℕ → String
op_decode b =
    if b == 0x00
    then "NOP"
    else if b == 0x10
    then "BIPUSH"
    else if b == 0x13
    then "LDC_W"
    else if b == 0x15
    then "ILOAD"
    else if b == 0x36
    then "ISTORE"
    else if b == 0x57
    then "POP"
    else if b == 0x59
    then "DUP"
    else if b == 0x5f
    then "SWAP"
    else if b == 0x60
    then "IADD"
    else if b == 0x64
    then "ISUB"
    else if b == 0x7e
    then "IAND"
    else if b == 0x84
    then "IINC"
    else if b == 0x99
    then "IFEQ"
    else if b == 0x9b
    then "IFLT"
    else if b == 0x9f
    then "ICMPEQ"
    else if b == 0xa7
    then "GOTO"
    else if b == 0xac
    then "IRETURN"
    else if b == 0xb0
    then "IOR"
    else if b == 0xb6
    then "INVOKEVIRTUAL"
    else if b == 0xc4
    then "WIDE"
    else if b == 0xfc
    then "IN"
    else if b == 0xfd
    then "OUT"
    else if b == 0xfe
    then "ERR"
    else if b == 0xff
    then "HALT"
    else if b == 0xd1
    then "NEWARRAY"
    else if b == 0xd2
    then "IALOAD"
    else if b == 0xd3
    then "IASTORE"
    else if b == 0xd4
    then "GC"
    else if b == 0xe1
    then "NETBIND"
    else if b == 0xe2
    then "NETCONNECT"
    else if b == 0xe3
    then "NETIN"
    else if b == 0xe4
    then "NETOUT"
    else if b == 0xe5
    then "NETCLOSE"
    else "NULL"
