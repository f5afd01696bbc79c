-- ===== src/Arith/Compress.antt =====
-- `compressBits` (src/toy/executor.cpp) against a recursion on the binary digits of its arguments.
use native.Mathlib.Nat.{one-le-pow, pow-suc, div-div-eq-div-mul}
use toy_isa_v1_5_interpreter.Base.{
  ℕ, zero, suc, ◌+◌, ◌*◌, ◌/◌, ◌%◌, ◌^◌, ◌<◌, ◌≤◌, ◌≡◌, refl, ap, ap₂, sym, arith, bit_or, bit_and,
  ◌==◌, ◌>>>◌, ◌<<<◌, Bool-cases, inl, inr, if◌then◌else◌, ◌∙◌,
}
use toy_isa_v1_5_interpreter.Base.Bits.{bit_and_power, bit_and_mask}
use toy_isa_v1_5_interpreter.BitUtils.Fields.{two-pow-le}
use toy_isa_v1_5_interpreter.Arith.{compress_loop, compress_bits}
use toy_isa_v1_5_interpreter.Arith.Rotate.{bit_or_apart}

-- The digits of `value` where `mask` has a 1, on the lowest `count` places.
unfoldable pub selected_bits : ℕ → ℕ → ℕ → ℕ
selected_bits zero value mask = 0
selected_bits (suc count) value mask =
    let rest = selected_bits count (value / 2) (mask / 2) in
    if mask % 2 == 0 then rest else value % 2 + 2 * rest

half-shift : (v i : ℕ) → v / 2 ^ i / 2 ≡ v / 2 ^ (i + 1)
half-shift v i =
    let e : i + 1 ≡ suc i = omega arith in
    div-div-eq-div-mul v (2 ^ i) 2
    ∙ ap (λ (t : ℕ). v / t) (sym (pow-suc 2 i) ∙ ap (λ (n : ℕ). 2 ^ n) (sym e))

one-shift : (i : ℕ) → i < 32 → 1 <<< i ≡ 2 ^ i
one-shift i h = omega (arith, two-pow-le i 31 (omega arith))

digit_test : (d p : ℕ) → d < 2 → 1 ≤ p → (d * p == 0) ≡ (d == 0)
digit_test zero p h k = let e : 0 * p ≡ 0 = omega arith in rw e refl
digit_test (suc zero) p h k = ground arith
digit_test (suc (suc d)) p h k = absurd (omega arith)

-- The test of a bit of the mask.
bit_test : (mask i : ℕ) → i < 32 → (bit_and mask (1 <<< i) == 0) ≡ (mask / 2 ^ i % 2 == 0)
bit_test mask i h =
    rw (one-shift i h, bit_and_power i mask)
      (digit_test (mask / 2 ^ i % 2) (2 ^ i) (omega arith) (one-le-pow i 2 (omega arith)))

digit-shift : (d i : ℕ) → d < 2 → i < 32 → d <<< i ≡ d * 2 ^ i
digit-shift zero i h k = omega arith
digit-shift (suc zero) i h k = omega (arith, one-shift i k)
digit-shift (suc (suc d)) i h k = absurd (omega arith)

-- One more digit of the result.
or_digit :
    (result value output : ℕ)
    → result < 2 ^ output
    → output < 32
    → bit_or result (bit_and value 1 <<< output) ≡ value % 2 * 2 ^ output + result
or_digit result value output fits h =
    ap (λ (d : ℕ). bit_or result (d <<< output)) (bit_and_mask 1 value)
    ∙ ap (bit_or result) (digit-shift (value % 2) output (omega arith) h)
    ∙ bit_or_apart output result (value % 2) fits

next_power : (n : ℕ) → 2 ^ (n + 1) ≡ 2 * 2 ^ n
next_power n = let e : n + 1 ≡ suc n = omega arith in rw e (omega (arith, pow-suc 2 n))

digit-fits : (d p result : ℕ) → d < 2 → result < p → d * p + result < 2 * p
digit-fits zero p result h k = omega arith
digit-fits (suc zero) p result h k = omega arith
digit-fits (suc (suc d)) p result h k = absurd (omega arith)

collect : (d p result rest : ℕ) → d * p + result + 2 * p * rest ≡ result + p * (d + 2 * rest)
collect d p result rest = grind arith

compress_loop_lem :
    (left i value mask result output : ℕ)
    → i + left ≡ 32
    → output ≤ i
    → result < 2 ^ output
    → compress_loop left i value mask result output
      ≡ result + 2 ^ output * selected_bits left (value / 2 ^ i) (mask / 2 ^ i)
unfolding compress_loop selected_bits
compress_loop_lem zero i value mask result output h k fits = omega arith
compress_loop_lem (suc left) i value mask result output h k fits =
    elim (Bool-cases (mask / 2 ^ i % 2 == 0)) [
      | inl nought ↦
          rw (bit_test mask i (omega arith), nought, half-shift value i, half-shift mask i)
            (compress_loop_lem left (i + 1) value mask result output (omega arith) (omega arith)
              fits)
      | inr one ↦
          rw (bit_test mask i (omega arith), one, half-shift value i, half-shift mask i)
            (let digit : ℕ = value / 2 ^ i % 2 in
              let power : ℕ = 2 ^ output in
              let rest : ℕ = selected_bits left (value / 2 ^ (i + 1)) (mask / 2 ^ (i + 1)) in
              let next : bit_or result (bit_and (value >>> i) 1 <<< output)
                  ≡ digit * power + result =
                or_digit result (value / 2 ^ i) output fits (omega arith) in
              let more : digit * power + result < 2 ^ (output + 1) =
                omega
                  (arith, next_power output, digit-fits digit power result (omega arith) fits) in
              ap (λ (r : ℕ). compress_loop left (i + 1) value mask r (output + 1)) next
              ∙ compress_loop_lem left (i + 1) value mask (digit * power + result) (output + 1)
                  (omega arith) (omega arith) more
              ∙ ap (λ (t : ℕ). digit * power + result + t * rest) (next_power output)
              ∙ collect digit power result rest)
    ]

-- BEXT gathers the bits of the value under the mask, in their order, at the low end.
pub compress_bits_lem : (value mask : ℕ) → compress_bits value mask ≡ selected_bits 32 value mask
unfolding compress_bits
compress_bits_lem value mask =
    compress_loop_lem 32 0 value mask 0 0 (omega arith) (omega arith) (omega arith)
    ∙ omega (arith, ap₂ (selected_bits 32) (div-one value) (div-one mask))
  where
    div-one : (v : ℕ) → v / 2 ^ 0 ≡ v
    div-one v = omega arith
