-- ===== src/Init/Vars.antt =====
-- `get_num_local_vars_main` of src/init.c: the scan of the code comes to an end.
use integer_java_virtual_mac.Base.{
  ℕ, zero, suc, ◌+◌, ◌≤◌, ◌≡◌, arith, Bool-cases, inl, inr, false, not, ◌&&◌, ◌||◌, ltb, ◌==◌,
  Option, some,
}
use integer_java_virtual_mac.Base.Word.{is_neg, sle, sdiv4, wrap, minus_one}
use integer_java_virtual_mac.Machine.{Vm, Run, Error, ok, exit, fault, M, and_then}
use integer_java_virtual_mac.Opcode.{
  Op, bipush, ldc_w, iload, istore, iinc, ifeq, iflt, icmpeq, goto, invokevirtual, wide, decode,
}
use integer_java_virtual_mac.Util.{get_code_byte, get_code_short}
use integer_java_virtual_mac.Cpu.{get_constant}
use integer_java_virtual_mac.Init.{
  Scan, scan_index, scan_variable, scan_op, scan_code, get_num_local_vars_main,
}

-- A run that did not lack fuel, and changed nothing if it returned.
pub data Reads {ℓ} {A : Type ℓ} (s : Vm) : Run A → Type ℓ where
  reads : {a : A} → Reads s (ok a s)
  gives_up : {e : Error} {t : Vm} → Reads s (exit e t)
  faults : Reads s fault

Reads-bind :
    {A B : Type 0} (s : Vm) (k : A → M B) {r : Run A}
    → Reads s r
    → ((a : A) → Reads s (k a s))
    → Reads s (and_then r k)
Reads-bind s k reads next = next _
Reads-bind s k gives_up next = gives_up
Reads-bind s k faults next = faults

pub get_code_byte-Reads : (s : Vm) (i : ℕ) → Reads s (get_code_byte i s)
unfolding get_code_byte
get_code_byte-Reads s i = elim (Bool-cases (ltb i s.cpu.code_mem_size)) [
  | inl h ↦ rw h reads
  | inr h ↦ rw h faults
]

pub get_code_short-Reads : (s : Vm) (i : ℕ) → Reads s (get_code_short i s)
unfolding get_code_short
get_code_short-Reads s i =
    Reads-bind s _ (get_code_byte-Reads s i)
      λ b1. Reads-bind s _ (get_code_byte-Reads s (i + 1)) λ b2. reads

pub get_constant-Reads : (s : Vm) (i : ℕ) → Reads s (get_constant i s)
unfolding get_constant
get_constant-Reads s i = elim (Bool-cases (is_neg i || sle (sdiv4 s.cpu.const_mem_size) i)) [
  | inl h ↦ rw h gives_up
  | inr h ↦ elim (Bool-cases (ltb i s.cpu.const_mem_size)) [
    | inl h' ↦ rw (h, h') reads
    | inr h' ↦ rw (h, h') faults
  ]
]

scan_variable-Reads : (s : Vm) (i : ℕ) (t : Scan) → Reads s (scan_variable i t s)
unfolding scan_variable scan_index
scan_variable-Reads s i t = elim (Bool-cases t.next_wide) [
  | inl h ↦
      rw h (
        Reads-bind s _ (Reads-bind s _ (get_code_short-Reads s (i + 1)) λ v. reads) λ (v, n). reads)
  | inr h ↦
      rw h
        (Reads-bind s _ (Reads-bind s _ (get_code_byte-Reads s (i + 1)) λ v. reads) λ (v, n). reads)
]

scan_op-Reads : (s : Vm) (op : Option Op) (i : ℕ) (t : Scan) → Reads s (scan_op op i t s)
unfolding scan_op
scan_op-Reads s (some invokevirtual) i t =
    Reads-bind s _ (get_code_short-Reads s (i + 1))
      λ c. Reads-bind s _ (get_constant-Reads s c) λ a. reads
scan_op-Reads s (some istore) i t = scan_variable-Reads s i t
scan_op-Reads s (some iload) i t = scan_variable-Reads s i t
scan_op-Reads s (some iinc) i t = Reads-bind s _ (scan_variable-Reads s i t) λ (n, t'). reads
scan_op-Reads s (some wide) i t = reads
scan_op-Reads s (some bipush) i t = reads
scan_op-Reads s (some goto) i t = reads
scan_op-Reads s (some ifeq) i t = reads
scan_op-Reads s (some iflt) i t = reads
scan_op-Reads s (some icmpeq) i t = reads
scan_op-Reads s (some ldc_w) i t = reads
scan_op-Reads s _ i t = reads

-- Every round passes over a byte at least.
scan_code-Reads :
    (n : ℕ) (s : Vm) (i : ℕ) (t : Scan)
    → s.cpu.code_mem_size ≤ i + n
    → Reads s (scan_code (suc n) i t s)
unfolding scan_code
scan_code-Reads zero s i t h =
    let stop : (not (is_neg s.cpu.code_mem_size) && ltb i s.cpu.code_mem_size) ≡ false =
      ground arith in
    rw stop reads
scan_code-Reads (suc n) s i t h =
    elim (Bool-cases (not (is_neg s.cpu.code_mem_size) && ltb i s.cpu.code_mem_size)) [
      | inr stop ↦ rw stop reads
      | inl more ↦ rw more (
          Reads-bind s _ (get_code_byte-Reads s i) λ b.
            elim (Bool-cases (not (i == minus_one) && ltb t.first_method (wrap (i + 2)))) [
              | inl other ↦ rw other reads
              | inr main ↦ rw main (
                  Reads-bind s _ (scan_op-Reads s (decode b) i t)
                    λ (k, t'). scan_code-Reads n s (i + k + 1) t' (omega arith))
            ])
    ]

-- The scan for the local variables of `main` always ends within one round for each byte of the
-- code and one more: it returns and has changed nothing, or it gives up with a message, or it reads
-- outside the code.
pub get_num_local_vars_main-Reads : (s : Vm) → Reads s (get_num_local_vars_main s)
unfolding get_num_local_vars_main
get_num_local_vars_main-Reads s =
    scan_code-Reads s.cpu.code_mem_size s 0
      (record { first_method = minus_one; var_num = 0; next_wide = false }) (omega arith)
