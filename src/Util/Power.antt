-- ===== src/Util/Power.antt =====
-- `power` of src/util.c.
use native.Mathlib.Nat.{pow-zero, pow-succ', mul_assoc, add-mul-mod_self_right}
use integer_java_virtual_mac.Base.{
  ℕ, zero, suc, ◌+◌, ◌*◌, ◌/◌, ◌^◌, ◌<◌, ◌≡◌, refl, ap, arith, ne→==,
}
use integer_java_virtual_mac.Base.Word.{wrap, word_mod}
use integer_java_virtual_mac.Util.{power_loop, power}

-- A product of words modulo 2 ^ 32 may be wrapped before the last factor.
wrap-mul : (a b c : ℕ) → wrap (wrap (a * b) * c) ≡ wrap (a * (b * c))
wrap-mul a b c =
    let q : ℕ = a * b / word_mod in
    let split : a * b ≡ wrap (a * b) + q * word_mod = omega arith in
    let e : a * (b * c) ≡ wrap (a * b) * c + q * c * word_mod =
      omega (arith, mul_assoc a b c, ap (λ (t : ℕ). t * c) split) in
    rw (e, add-mul-mod_self_right (wrap (a * b) * c) (q * c) word_mod) refl

power_loop_lem : (n b e : ℕ) → b < word_mod → power_loop n b e ≡ wrap (b * e ^ n)
unfolding power_loop
power_loop_lem zero b e h = rw (pow-zero e) (omega arith)
power_loop_lem (suc n) b e h =
    rw (power_loop_lem n (wrap (b * e)) e (omega arith), pow-succ' e n) (wrap-mul b e (e ^ n))

-- For a positive exponent and a base that is a word, `power` is the base times the exponent to the
-- power of itself, modulo 2 ^ 32: each round multiplies by the exponent and not by the base.
pub power_lem :
    (base exponent : ℕ)
    → base < word_mod
    → 0 < exponent
    → power base exponent ≡ wrap (base * exponent ^ exponent)
unfolding power
power_lem base exponent h pos =
    rw (ne→== exponent 0 (omega arith)) (power_loop_lem exponent base exponent h)
