-- ===== src/BitUtils/Signed.antt =====
-- `signExtend` of include/toy/bitutils.hpp and the signed value of its field.
use native.Mathlib.Nat.{pow-suc, one-le-pow, zero-add, div-eq_of_lt}
use toy_isa_v1_5_interpreter.Base.{ℕ, zero, suc, ◌+◌, ◌-◌, ◌*◌, ◌/◌, ◌%◌, ◌^◌, ◌≤◌, ◌<◌}
use toy_isa_v1_5_interpreter.Base.{
  bit_and, bit_or, ◌≡◌, ap, ap₂, sym, u32, arith, Bool-cases, inl, inr,
}
use toy_isa_v1_5_interpreter.Base.{◌∙◌, not32, ◌==◌, ==_iff, ltb, ltb→lt, ltb→ge, if◌then◌else◌}
use toy_isa_v1_5_interpreter.Base.Int.{to_signed}
use toy_isa_v1_5_interpreter.Base.Bits.{
  bit_and_mask, bit_and_split, bit_or_split, bit_and-zero, bit_or-zero, zero-bit_or,
}
use toy_isa_v1_5_interpreter.BitUtils.{sign_extend}
use toy_isa_v1_5_interpreter.BitUtils.Fields.{two-pow-le, make_mask_lem}

pub two-pow-add : (a b : ℕ) → 2 ^ (a + b) ≡ 2 ^ a * 2 ^ b
two-pow-add zero b = rw zero-add (omega arith)
two-pow-add (suc a) b =
    let e : suc a + b ≡ suc (a + b) = omega arith in
    rw e
      (omega (arith, pow-suc 2 (a + b), ap (λ (t : ℕ). t * 2 ^ b) (pow-suc 2 a), two-pow-add a b))

div-lt-two : (x p : ℕ) → x < p * 2 → x / p < 2
div-lt-two x p h = grind arith

pred-mul : (a b : ℕ) → 1 ≤ a → (a - 1) * b ≡ a * b - b
pred-mul zero b h = absurd (omega arith)
pred-mul (suc a) b h = let e : suc a - 1 ≡ a = omega arith in rw e (omega arith)

one-le-div : (f p : ℕ) → 1 ≤ p → p ≤ f → 1 ≤ f / p
one-le-div f p h k = grind arith

div-mul-eq-zero : (f p : ℕ) → 1 ≤ p → (f / p * p == 0) ≡ ltb f p
div-mul-eq-zero f p h = elim (Bool-cases (ltb f p)) [
  | inl small ↦ let e : f / p ≡ 0 = div-eq_of_lt (ltb→lt f p small) in rw (e, small) (ground arith)
  | inr large ↦
      let one : 1 ≤ f / p = one-le-div f p h (ltb→ge f p large) in
      let e : p ≤ f / p * p = grind arith in rw large (ground arith)
]

-- The sign bit of a field of `k + 1` bits.
bit_and-sign_bit : (k x : ℕ) → x < 2 ^ suc k → bit_and x (2 ^ k) ≡ x / 2 ^ k * 2 ^ k
bit_and-sign_bit k x h =
    let q : ℕ = x / 2 ^ k in
    let r : ℕ = x % 2 ^ k in
    let one_bit : q < 2 = div-lt-two x (2 ^ k) (omega (arith, pow-suc 2 k)) in
    let top : bit_and q 1 ≡ q = omega (arith, bit_and_mask 1 q) in
    let split : x ≡ q * 2 ^ k + r = omega arith in
    let mask : 2 ^ k ≡ 1 * 2 ^ k + 0 = omega arith in
    ap₂ bit_and split mask
    ∙ bit_and_split k q 1 r 0 (omega (arith, one-le-pow k 2)) (omega (arith, one-le-pow k 2))
    ∙ omega (arith, ap (λ (t : ℕ). t * 2 ^ k) top, bit_and-zero r)

-- The test of the highest bit.
pub sign_bit-eq-zero : (k x : ℕ) → x < 2 ^ suc k → (bit_and x (2 ^ k) == 0) ≡ ltb x (2 ^ k)
sign_bit-eq-zero k x h =
    rw (bit_and-sign_bit k x h) (div-mul-eq-zero x (2 ^ k) (one-le-pow k 2 (omega arith)))

-- Filling the bits above a field with ones.
bit_or-not_mask :
    (k x : ℕ) → k ≤ 32 → x < 2 ^ k → bit_or x (not32 (2 ^ k - 1)) ≡ x + (2 ^ 32 - 2 ^ k)
bit_or-not_mask k x h fits =
    let n : ℕ = 32 - k in
    let width : n + k ≡ 32 = omega arith in
    let word : 2 ^ 32 ≡ 2 ^ n * 2 ^ k = ap (λ (t : ℕ). 2 ^ t) (sym width) ∙ two-pow-add n k in
    let above : not32 (2 ^ k - 1) ≡ (2 ^ n - 1) * 2 ^ k + 0 =
      omega
        (arith, word, one-le-pow k 2, pred-mul (2 ^ n) (2 ^ k) (one-le-pow n 2 (omega arith))) in
    let below : x ≡ 0 * 2 ^ k + x = omega arith in
    ap₂ bit_or below above
    ∙ bit_or_split k 0 (2 ^ n - 1) x 0 fits (omega (arith, one-le-pow k 2))
    ∙ omega (arith, above, ap (λ (t : ℕ). t * 2 ^ k) (zero-bit_or (2 ^ n - 1)), bit_or-zero x)

-- `signExtend` of a field of `k + 1` bits, as arithmetic.
pub sign_extend_lem :
    (value k : ℕ)
    → k < 32
    → let field = value % 2 ^ suc k in
      sign_extend value (suc k)
      ≡ (if ltb field (2 ^ k) then field else field + (2 ^ 32 - 2 ^ suc k))
unfolding sign_extend
sign_extend_lem value k h =
    let f : ℕ = value % 2 ^ suc k in
    let f-lt : f < 2 ^ suc k = omega (arith, one-le-pow (suc k) 2) in
    let pred-suc : suc k - 1 ≡ k = omega arith in
    let shift : u32 (1 * 2 ^ k) ≡ 2 ^ k = omega (arith, two-pow-le k 31 (omega arith)) in
    rw
      (
        make_mask_lem (suc k) h,
        bit_and_mask (suc k) value,
        pred-suc,
        shift,
        bit_and-sign_bit k f f-lt,
        bit_or-not_mask (suc k) f h f-lt,
      )
      (elim (Bool-cases (suc k == 32)) [
        | inl whole ↦
            let e : suc k ≡ 32 = (==_iff (suc k) 32).0 whole in
            rw whole (ground (arith, ap (λ (t : ℕ). 2 ^ t) e))
        | inr part ↦ rw (part, div-mul-eq-zero f (2 ^ k) (one-le-pow k 2 (omega arith)))
      ])

-- For a width that is not 0, `signExtend` gives the word whose signed value is that of the
-- low `Width` bits.
pub to_signed-sign_extend :
    (value k : ℕ)
    → k < 32
    → to_signed 32 (sign_extend value (suc k)) ≡ to_signed (suc k) (value % 2 ^ suc k)
to_signed-sign_extend value k h =
    let f : ℕ = value % 2 ^ suc k in
    let f-lt : f < 2 ^ suc k = omega (arith, one-le-pow (suc k) 2) in
    let pred-suc : suc k - 1 ≡ k = omega arith in
    rw (pred-suc, sign_extend_lem value k h)
      (ground (arith, two-pow-le k 31 (omega arith), two-pow-le (suc k) 32 h, pow-suc 2 k))

pub sign_extend-lt : (value k : ℕ) → k < 32 → sign_extend value (suc k) < 2 ^ 32
sign_extend-lt value k h =
    let f-lt : value % 2 ^ suc k < 2 ^ suc k = omega (arith, one-le-pow (suc k) 2) in
    rw (sign_extend_lem value k h) (ground (arith, two-pow-le (suc k) 32 h))
