-- ===== src/Arith/Rotate.antt =====
-- `rotateRight` (src/toy/executor.cpp) as arithmetic.
use native.Mathlib.Nat.{
  one-le-pow, div-add-mod', mul-add-mod_self_right, mod-eq_of_lt, mod-lt, mul-lt-mul_of_pos_right,
}
use toy_isa_v1_5_interpreter.Base.{
  ℕ, ◌+◌, ◌-◌, ◌*◌, ◌/◌, ◌%◌, ◌^◌, ◌<◌, ◌≤◌, ◌≡◌, ap, ap₂, sym, arith, bit_or, ◌==◌, ◌<<<◌,
  Bool-cases, inl, inr, ==_iff, ◌∙◌,
}
use toy_isa_v1_5_interpreter.Base.Bits.{bit_or_split, bit_or-zero, zero-bit_or}
use toy_isa_v1_5_interpreter.BitUtils.Signed.{two-pow-add}
use toy_isa_v1_5_interpreter.Arith.{rotate_right}

-- The remainder of a multiple.
mod-mul : (a n m : ℕ) → 1 ≤ n → 1 ≤ m → a * m % (n * m) ≡ a % n * m
mod-mul a n m h k =
    let parts : a * m ≡ a / n * (n * m) + a % n * m =
      ap (λ (t : ℕ). t * m) (sym (div-add-mod' a n)) ∙ times (a / n) n (a % n) in
    ap (λ (t : ℕ). t % (n * m)) parts
    ∙ mul-add-mod_self_right (a / n) (n * m) (a % n * m)
    ∙ mod-eq_of_lt (smaller (a % n) n (mod-lt a (omega arith)))
  where
    times : (q d r : ℕ) → (q * d + r) * m ≡ q * (d * m) + r * m
    times q d r = grind arith

    smaller : (r d : ℕ) → r < d → r * m < d * m
    smaller r d less = mul-lt-mul_of_pos_right less (omega arith)

-- A field of `k` bits and one above it.
pub bit_or_apart : (k r q : ℕ) → r < 2 ^ k → bit_or r (q * 2 ^ k) ≡ q * 2 ^ k + r
bit_or_apart k r q p =
    let below : r ≡ 0 * 2 ^ k + r = omega arith in
    let above : q * 2 ^ k ≡ q * 2 ^ k + 0 = omega arith in
    ap₂ bit_or below above
    ∙ bit_or_split k 0 q r 0 p (omega (arith, one-le-pow k 2))
    ∙ omega (arith, ap (λ (t : ℕ). t * 2 ^ k) (zero-bit_or q), bit_or-zero r)

halves : (shift : ℕ) → shift < 32 → 2 ^ 32 ≡ 2 ^ shift * 2 ^ (32 - shift)
halves shift h =
    let e : 32 ≡ shift + (32 - shift) = omega arith in
    ap (λ (t : ℕ). 2 ^ t) e ∙ two-pow-add shift (32 - shift)

div-lt : (v n m : ℕ) → v < n * m → v / n < m
div-lt v n m p = grind arith

-- RORI of a word by less than 32 bits: the bits shifted out on the right come in on the left.
pub rotate_right_lem :
    (value shift : ℕ)
    → value < 2 ^ 32
    → shift < 32
    → rotate_right value shift ≡ value % 2 ^ shift * 2 ^ (32 - shift) + value / 2 ^ shift
unfolding rotate_right
rotate_right_lem value shift word h = elim (Bool-cases (shift == 0)) [
  | inl nought ↦ let e : shift ≡ 0 = (==_iff shift 0).0 nought in rw e (omega arith)
  | inr some ↦
      let left : ℕ = 32 - shift in
      let whole : 2 ^ 32 ≡ 2 ^ shift * 2 ^ left = halves shift h in
      let high : value <<< left ≡ value % 2 ^ shift * 2 ^ left =
        ap (λ (t : ℕ). value * 2 ^ left % t) whole
        ∙ mod-mul value (2 ^ shift) (2 ^ left) (one-le-pow shift 2 (omega arith))
            (one-le-pow left 2 (omega arith)) in
      let fits : value / 2 ^ shift < 2 ^ left =
        div-lt value (2 ^ shift) (2 ^ left) (omega (arith, whole)) in
      rw (some, high) (bit_or_apart left (value / 2 ^ shift) (value % 2 ^ shift) fits)
]

-- A word that is rotated by all 32 bits, in two steps of at least one bit, is as before.
pub rotate_right-rotate_right :
    (value shift : ℕ)
    → value < 2 ^ 32
    → 1 ≤ shift
    → shift < 32
    → rotate_right (rotate_right value shift) (32 - shift) ≡ value
rotate_right-rotate_right value shift word h k =
    let left : ℕ = 32 - shift in
    let high : ℕ = value / 2 ^ shift in
    let low : ℕ = value % 2 ^ shift in
    let back : 32 - left ≡ shift = omega arith in
    let whole : 2 ^ 32 ≡ 2 ^ shift * 2 ^ left = halves shift k in
    let low-lt : low < 2 ^ shift = mod-lt value (one-le-pow shift 2 (omega arith)) in
    let high-lt : high < 2 ^ left = div-lt value (2 ^ shift) (2 ^ left) (omega (arith, whole)) in
    let fits : low * 2 ^ left + high < 2 ^ 32 =
      omega (arith, whole, pack low (2 ^ shift) high (2 ^ left) low-lt high-lt) in
    rw (rotate_right_lem value shift word k) (
      rotate_right_lem (low * 2 ^ left + high) left fits (omega arith)
      ∙ ap₂ ◌+◌
          (ap₂ ◌*◌ (mul-add-mod_self_right low (2 ^ left) high ∙ mod-eq_of_lt high-lt)
            (ap (λ (n : ℕ). 2 ^ n) back))
          (quotient low high (2 ^ left) high-lt)
      ∙ div-add-mod' value (2 ^ shift))
  where
    pack : (a p b q : ℕ) → a < p → b < q → a * q + b < p * q
    pack a p b q less less' = grind arith

    quotient : (a b q : ℕ) → b < q → (a * q + b) / q ≡ a
    quotient a b q less = grind arith
