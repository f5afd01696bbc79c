-- ===== src/BitUtils/Fields.antt =====
-- `makeMask` and `extractBits` of include/toy/bitutils.hpp as arithmetic.
use native.Mathlib.Nat.{pow-le-pow_right, one-le-pow}
use toy_isa_v1_5_interpreter.Base.{ℕ, ◌+◌, ◌-◌, ◌/◌, ◌%◌, ◌^◌, ◌≤◌, ◌<◌}
use toy_isa_v1_5_interpreter.Base.{◌≡◌, refl, arith, ◌==◌, ==_iff, Bool-cases, inl, inr}
use toy_isa_v1_5_interpreter.Base.Bits.{bit_and_mask}
use toy_isa_v1_5_interpreter.BitUtils.{make_mask, extract_bits}

-- The powers of two up to 2^31 fit a word.
pub two-pow-le : (k n : ℕ) → k ≤ n → 2 ^ k ≤ 2 ^ n
two-pow-le k n h = pow-le-pow_right (omega arith) h

pub make_mask_lem : (width : ℕ) → width ≤ 32 → make_mask width ≡ 2 ^ width - 1
unfolding make_mask
make_mask_lem width h = elim (Bool-cases (width == 32)) [
  | inl whole ↦ let e : width ≡ 32 = (==_iff width 32).0 whole in rw e refl
  | inr part ↦ rw part (omega (arith, two-pow-le width 31 (ground arith), one-le-pow width 2))
]

-- Inside a word, `extractBits` is the field of `Width` bits from bit `Offset` up.
pub extract_bits_lem :
    (word offset width : ℕ)
    → word < 2 ^ 32
    → offset + width ≤ 32
    → extract_bits word offset width ≡ word / 2 ^ offset % 2 ^ width
unfolding extract_bits
extract_bits_lem word offset width fits h = elim (Bool-cases (offset == 32)) [
  | inl end ↦
      let e : offset ≡ 32 = (==_iff offset 32).0 end in
      let e' : width ≡ 0 = omega arith in rw (e, e') (omega arith)
  | inr inside ↦
      rw (inside, make_mask_lem width (omega arith)) (bit_and_mask width (word / 2 ^ offset))
]

pub extract_bits-lt :
    (word offset width : ℕ)
    → word < 2 ^ 32
    → offset + width ≤ 32
    → extract_bits word offset width < 2 ^ width
extract_bits-lt word offset width fits h =
    omega (arith, extract_bits_lem word offset width fits h, one-le-pow width 2)
