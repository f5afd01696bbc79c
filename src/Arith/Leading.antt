-- ===== src/Arith/Leading.antt =====
-- `countLeadingZeros` (src/toy/executor.cpp) as the number of binary digits of a word.
use native.Mathlib.Nat.{one-le-pow, pow-suc}
use toy_isa_v1_5_interpreter.Base.{
  ℕ, zero, suc, ◌+◌, ◌-◌, ◌/◌, ◌^◌, ◌<◌, ◌≤◌, ◌≡◌, ◌⊎◌, refl, ap, arith, ltb, ◌==◌, Bool-cases, inl,
  inr, ltb→lt, ltb→ge, false,
}
use toy_isa_v1_5_interpreter.BitUtils.Signed.{sign_bit-eq-zero}
use toy_isa_v1_5_interpreter.Arith.{leading_zeros_loop, count_leading_zeros}

-- `value` has `bits` binary digits.
abbrev pub HasBits : ℕ → ℕ → Type 0
HasBits value bits = (value < 2 ^ bits) × ((bits ≡ 0) ⊎ (2 ^ (bits - 1) ≤ value))

-- The loop on a value of at most `k` digits, from the mask of the highest of them.
abbrev IsCounted : ℕ → ℕ → ℕ → ℕ → Type 0
IsCounted k value count result = (bits : ℕ) × (result + bits ≡ count + k) × HasBits value bits

leading_zeros_loop_lem :
    (k value count : ℕ)
    → value < 2 ^ k
    → IsCounted k value count (leading_zeros_loop (suc k) (2 ^ k / 2) value count)
unfolding leading_zeros_loop
leading_zeros_loop_lem zero value count h = (0, omega arith, (h, inl refl))
leading_zeros_loop_lem (suc k) value count h =
    let mask : 2 ^ suc k / 2 ≡ 2 ^ k = omega (arith, pow-suc 2 k) in
    let some_mask : (2 ^ k == 0) ≡ false = ground (arith, one-le-pow k 2) in
    let less : suc k - 1 ≡ k = omega arith in
    elim (Bool-cases (ltb value (2 ^ k))) [
      | inl small ↦
          let (bits, total, has) =
            leading_zeros_loop_lem k value (count + 1) (ltb→lt value (2 ^ k) small) in
          rw (mask, some_mask, sign_bit-eq-zero k value h, small) (bits, omega arith, has)
      | inr big ↦
          rw (mask, some_mask, sign_bit-eq-zero k value h, big)
            (
              suc k,
              omega arith,
              (h, inr (omega (arith, ltb→ge value (2 ^ k) big, ap (λ (t : ℕ). 2 ^ t) less))),
            )
    ]

-- CLZ of a 32-bit word is 32 less the number of its binary digits; of 0 it is 32.
pub count_leading_zeros_lem :
    (value : ℕ)
    → value < 2 ^ 32
    → (bits : ℕ) × (count_leading_zeros value + bits ≡ 32) × HasBits value bits
unfolding count_leading_zeros
count_leading_zeros_lem value h = leading_zeros_loop_lem 32 value 0 h
