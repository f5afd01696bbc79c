-- ===== src/Arith/Saturate.antt =====
-- `saturateSigned` (src/toy/executor.cpp) as a bound on signed numbers.
use Prim.Native.Nat.{min}
use native.Mathlib.Nat.{one-le-pow}
use toy_isa_v1_5_interpreter.Base.{
  ℕ, ◌-◌, ◌*◌, ◌/◌, ◌^◌, ◌<◌, ◌≤◌, ◌≡◌, arith, bit_and, ltb, ◌==◌, not32, Bool-cases, inl, inr,
  if◌then◌else◌, ltb→lt, ltb→ge,
}
use toy_isa_v1_5_interpreter.Base.Int.{ℤ, pos, negsuc, to_signed}
use toy_isa_v1_5_interpreter.Base.Bits.{bit_and_power}
use toy_isa_v1_5_interpreter.BitUtils.{make_mask}
use toy_isa_v1_5_interpreter.BitUtils.Fields.{make_mask_lem, two-pow-le}
use toy_isa_v1_5_interpreter.Checked.{ok}
use toy_isa_v1_5_interpreter.Arith.{saturate_signed}

-- The nearest number from `- half` to `half - 1`.
abbrev pub clamp_signed : ℕ → ℤ → ℤ
clamp_signed half (pos n) = pos (min n (half - 1))
clamp_signed half (negsuc n) = negsuc (min n (half - 1))

-- The sign bit of a word.
pub sign_bit_lem : (v : ℕ) → v < 2 ^ 32 → bit_and v (2 ^ 31) ≡ v / 2 ^ 31 * 2 ^ 31
sign_bit_lem v h = omega (arith, bit_and_power 31 v)

-- What is left of the error test, on a width in range.
abbrev pub saturate_signed_word : ℕ → ℕ → ℕ
saturate_signed_word value maximum =
    if bit_and value (2 ^ 31) == 0
    then (if ltb maximum value then maximum else value)
    else (if ltb value (not32 maximum) then not32 maximum else value)

-- The bound on a word, for a maximum that is a positive signed number.
saturate_signed_word_lem :
    (value half : ℕ)
    → value < 2 ^ 32
    → 1 ≤ half
    → half ≤ 2 ^ 30
    → to_signed 32 (saturate_signed_word value (half - 1)) ≡ clamp_signed half (to_signed 32 value)
saturate_signed_word_lem value half word h k = elim (Bool-cases (ltb value (2 ^ 31))) [
  | inl small ↦
      let e : bit_and value (2 ^ 31) ≡ 0 =
        omega (arith, sign_bit_lem value word, ltb→lt value (2 ^ 31) small) in
      rw (small, e) (ground arith)
  | inr big ↦
      let e : bit_and value (2 ^ 31) ≡ 2 ^ 31 =
        omega (arith, sign_bit_lem value word, ltb→ge value (2 ^ 31) big) in
      rw (big, e) (ground arith)
]

-- For a width in range there is no error.
pub saturate_signed-ok :
    (value width : ℕ)
    → 1 ≤ width
    → width ≤ 31
    → saturate_signed value width ≡ ok (saturate_signed_word value (2 ^ (width - 1) - 1))
unfolding saturate_signed
saturate_signed-ok value width h k =
    let mask : make_mask (width - 1) ≡ 2 ^ (width - 1) - 1 =
      make_mask_lem (width - 1) (omega arith) in
    ground (arith, mask)

-- For a width from 1 to 31, SSAT of a 32-bit word gives the nearest signed number of that many bits.
pub saturate_signed_lem :
    (value width : ℕ)
    → value < 2 ^ 32
    → 1 ≤ width
    → width ≤ 31
    → (result : ℕ) × (saturate_signed value width ≡ ok result)
      × (to_signed 32 result ≡ clamp_signed (2 ^ (width - 1)) (to_signed 32 value))
saturate_signed_lem value width word h k =
    let half : ℕ = 2 ^ (width - 1) in
    (
      saturate_signed_word value (half - 1),
      saturate_signed-ok value width h k,
      saturate_signed_word_lem value half word (one-le-pow (width - 1) 2 (omega arith))
          (two-pow-le (width - 1) 30 (omega arith)),
    )
