-- ===== src/Base/Bits.antt =====
-- `&` and `|` as arithmetic, at every width: on fields, with masks, and their bounds.
mod Step
use Prim.Native.Nat.{
  ℕ, zero, suc, ◌+◌, ◌-◌, ◌*◌, ◌/◌, ◌%◌, ◌^◌, ◌≤◌, ◌<◌, min, max, bit_and, bit_or, bit_and-bitwise,
  bit_or-bitwise,
}
use mathlib.Core.Path.{◌≡◌, refl, ap, sym, ◌∙◌}
use mathlib.Core.WellFounded
use native.Mathlib.Nat.{pow-suc, one-le-pow}
use native.Mathlib.Omega.{arith}
use toy_isa_v1_5_interpreter.Base.Order.{lt_wf}
pub use Step.{bit_or_step, bit_and_step}

-- What holds of 0, and of a number where it holds of its half, holds of all.
by_halves : (P : ℕ → Type 0) → P 0 → ((n : ℕ) → P (suc n / 2) → P (suc n)) → (n : ℕ) → P n
by_halves P base halve n = WellFounded.induction lt_wf {C = P} n rounds
  where
    rounds : (m : ℕ) → ((k : ℕ) → k < m → P k) → P m
    rounds zero smaller = base
    rounds (suc m) smaller = halve m (smaller (suc m / 2) (omega arith))

pub bit_or-zero : (a : ℕ) → bit_or a 0 ≡ a
bit_or-zero =
    by_halves (λ a. bit_or a 0 ≡ a) refl (λ n half. omega (arith, half, bit_or_step (suc n) 0))

pub bit_and-zero : (a : ℕ) → bit_and a 0 ≡ 0
bit_and-zero =
    by_halves (λ a. bit_and a 0 ≡ 0) refl (λ n half. omega (arith, half, bit_and_step (suc n) 0))

pub bit_and-le : (a b : ℕ) → bit_and a b ≤ a
bit_and-le =
    by_halves (λ a. (b : ℕ) → bit_and a b ≤ a) (λ b. omega (arith, bit_and-bitwise 0 b))
      (λ n half b. omega (arith, half (b / 2), bit_and_step (suc n) b))

twice_pow : (q k : ℕ) → q * 2 ^ suc k ≡ (q * 2 ^ k) * 2
twice_pow q k = omega (arith, ap (λ (p : ℕ). q * p) (pow-suc 2 k))

-- An operation on digits works on the high and the low fields apart, and keeps their width.
module _ (op digit : ℕ → ℕ → ℕ)
    (steps : (a b : ℕ) → op a b ≡ digit (a % 2) (b % 2) + 2 * op (a / 2) (b / 2))
    (noughts : op 0 0 ≡ 0) where
  split_fields :
      (k a b c d : ℕ)
      → c < 2 ^ k
      → d < 2 ^ k
      → op (a * 2 ^ k + c) (b * 2 ^ k + d) ≡ op a b * 2 ^ k + op c d
  split_fields zero a b c d p q = ground (arith, noughts)
  split_fields (suc k) a b c d p q =
      let doubled : 2 ^ suc k ≡ 2 * 2 ^ k = omega (arith, pow-suc 2 k) in
      let lower = split_fields k a b (c / 2) (d / 2) (omega arith) (omega arith) in
      ground (
        arith,
        lower,
        doubled,
        twice_pow a k,
        twice_pow b k,
        twice_pow (op a b) k,
        steps c d,
        steps (a * 2 ^ suc k + c) (b * 2 ^ suc k + d),
      )

  op-lt :
      ((x y : ℕ) → x < 2 → y < 2 → digit x y < 2)
      → (k a b : ℕ) → a < 2 ^ k
      → b < 2 ^ k
      → op a b < 2 ^ k
  op-lt small zero a b p q =
      let a-zero : a ≡ 0 = omega arith in
      let b-zero : b ≡ 0 = omega arith in rw (a-zero, b-zero) (omega (arith, noughts))
  op-lt small (suc k) a b p q =
      let doubled : 2 ^ suc k ≡ 2 * 2 ^ k = omega (arith, pow-suc 2 k) in
      let lower = op-lt small k (a / 2) (b / 2) (omega arith) (omega arith) in
      omega (arith, lower, doubled, steps a b, small (a % 2) (b % 2) (omega arith) (omega arith))

pub bit_and_split :
    (k a b c d : ℕ)
    → c < 2 ^ k
    → d < 2 ^ k
    → bit_and (a * 2 ^ k + c) (b * 2 ^ k + d) ≡ bit_and a b * 2 ^ k + bit_and c d
bit_and_split = split_fields bit_and min bit_and_step refl

pub bit_or_split :
    (k a b c d : ℕ)
    → c < 2 ^ k
    → d < 2 ^ k
    → bit_or (a * 2 ^ k + c) (b * 2 ^ k + d) ≡ bit_or a b * 2 ^ k + bit_or c d
bit_or_split = split_fields bit_or max bit_or_step refl

pub bit_or-lt : (k a b : ℕ) → a < 2 ^ k → b < 2 ^ k → bit_or a b < 2 ^ k
bit_or-lt = op-lt bit_or max bit_or_step refl (λ x y p q. omega arith)

pub zero-bit_or : (b : ℕ) → bit_or 0 b ≡ b
zero-bit_or b = simp bit_or-bitwise refl

-- A field above `k` bits and a value of `k` bits do not overlap.
pub bit_or_fields : (k q r : ℕ) → r < 2 ^ k → bit_or (q * 2 ^ k) r ≡ q * 2 ^ k + r
bit_or_fields k q r fits =
    let left : q * 2 ^ k ≡ q * 2 ^ k + 0 = omega arith in
    let right : r ≡ 0 * 2 ^ k + r = omega arith in
    ap (λ (x : ℕ). bit_or x r) left
    ∙ ap (λ (x : ℕ). bit_or (q * 2 ^ k + 0) x) right
    ∙ bit_or_split k q 0 0 r (omega (arith, one-le-pow k 2)) fits
    ∙ omega (arith, ap (λ (t : ℕ). t * 2 ^ k) (bit_or-zero q), zero-bit_or r)

-- All digits of a number of `k` bits are under the mask of `k` bits.
under_mask : (k r : ℕ) → r < 2 ^ k → bit_and r (2 ^ k - 1) ≡ r
under_mask zero r fits = let none : r ≡ 0 = omega arith in rw none refl
under_mask (suc k) r fits =
    let doubled : 2 ^ suc k ≡ 2 * 2 ^ k = omega (arith, pow-suc 2 k) in
    let halved : (2 ^ suc k - 1) / 2 ≡ 2 ^ k - 1 = omega (arith, one-le-pow k 2) in
    let odd : (2 ^ suc k - 1) % 2 ≡ 1 = omega (arith, one-le-pow k 2) in
    omega (
      arith,
      bit_and_step r (2 ^ suc k - 1),
      odd,
      ap (λ (m : ℕ). bit_and (r / 2) m) halved,
      under_mask k (r / 2) (omega arith),
    )

-- A mask of `k` low bits is the remainder by `2 ^ k`.
pub bit_and_mask : (k a : ℕ) → bit_and a (2 ^ k - 1) ≡ a % 2 ^ k
bit_and_mask k a =
    let low : ℕ = a % 2 ^ k in
    let low-lt : low < 2 ^ k = omega (arith, one-le-pow k 2) in
    let left : a ≡ a / 2 ^ k * 2 ^ k + low = omega (arith, one-le-pow k 2) in
    let right : 2 ^ k - 1 ≡ 0 * 2 ^ k + (2 ^ k - 1) = omega arith in
    ap (λ (x : ℕ). bit_and x (2 ^ k - 1)) left
    ∙ ap (λ (x : ℕ). bit_and (a / 2 ^ k * 2 ^ k + low) x) right
    ∙ bit_and_split k (a / 2 ^ k) 0 low (2 ^ k - 1) low-lt (omega (arith, one-le-pow k 2))
    ∙ omega (arith, ap (λ (t : ℕ). t * 2 ^ k) (bit_and-zero (a / 2 ^ k)), under_mask k low low-lt)

-- A bit under a mask of one bit.
pub bit_and_power : (i v : ℕ) → bit_and v (2 ^ i) ≡ v / 2 ^ i % 2 * 2 ^ i
bit_and_power i v =
    let high : ℕ = v / 2 ^ i in
    let low : ℕ = v % 2 ^ i in
    let left : v ≡ high * 2 ^ i + low = omega (arith, one-le-pow i 2) in
    let right : 2 ^ i ≡ 1 * 2 ^ i + 0 = omega arith in
    ap (λ (x : ℕ). bit_and x (2 ^ i)) left
    ∙ ap (λ (x : ℕ). bit_and (high * 2 ^ i + low) x) right
    ∙ bit_and_split i high 1 low 0 (omega (arith, one-le-pow i 2)) (omega (arith, one-le-pow i 2))
    ∙ omega (arith, bit_and-zero low, ap (λ (t : ℕ). t * 2 ^ i) (bit_and_mask 1 high))

-- Two masks can be taken in either order.
pub bit_and_swap : (w m n : ℕ) → bit_and (bit_and w m) n ≡ bit_and (bit_and w n) m
bit_and_swap =
    by_halves (λ w. (m n : ℕ) → bit_and (bit_and w m) n ≡ bit_and (bit_and w n) m)
      (λ m n.
        ap (λ (x : ℕ). bit_and x n) (zero-bit_and m)
        ∙ zero-bit_and n
        ∙ sym (ap (λ (x : ℕ). bit_and x m) (zero-bit_and n) ∙ zero-bit_and m))
      (λ w half m n. masked w m n ∙ omega (arith, half (m / 2) (n / 2)) ∙ sym (masked w n m))
  where
    zero-bit_and : (m : ℕ) → bit_and 0 m ≡ 0
    zero-bit_and m = bit_and-bitwise 0 m

    masked :
        (w m n : ℕ)
        → bit_and (bit_and (suc w) m) n
          ≡ min (min (suc w % 2) (m % 2)) (n % 2)
            + 2 * bit_and (bit_and (suc w / 2) (m / 2)) (n / 2)
    masked w m n =
        let inner : bit_and (suc w) m / 2 ≡ bit_and (suc w / 2) (m / 2) =
          omega (arith, bit_and_step (suc w) m) in
        omega (
          arith,
          bit_and_step (suc w) m,
          bit_and_step (bit_and (suc w) m) n,
          ap (λ (x : ℕ). bit_and x (n / 2)) inner,
        )
