-- ===== src/Safety/Arith.antt =====
-- The ranges of the results of `ExecutorDetail` (src/toy/executor.cpp).
use toy_isa_v1_5_interpreter.Base.{
  ℕ, zero, suc, ◌+◌, ◌-◌, ◌≤◌, ◌≡◌, arith, bit_and, bit_or, ◌==◌, u32, ◌<<<◌, ◌>>>◌, Bool-cases,
  inl, inr,
}
use toy_isa_v1_5_interpreter.Base.Bits.{bit_or-lt}
use toy_isa_v1_5_interpreter.BitUtils.{make_mask}
use toy_isa_v1_5_interpreter.Checked.{ok}
use toy_isa_v1_5_interpreter.Arith.{
  leading_zeros_loop, count_leading_zeros, saturate_signed, rotate_right, compress_loop,
  compress_bits,
}
use toy_isa_v1_5_interpreter.Safety.Invariant.{IsWord}

pub u32-IsWord : (n : ℕ) → IsWord (u32 n)
u32-IsWord n = omega arith

pub bit_or-IsWord : (a b : ℕ) → IsWord a → IsWord b → IsWord (bit_or a b)
bit_or-IsWord a b h k = bit_or-lt 32 a b h k

leading_zeros_loop-le :
    (rounds mask value count : ℕ) → leading_zeros_loop rounds mask value count ≤ count + rounds
unfolding leading_zeros_loop
leading_zeros_loop-le zero mask value count = omega arith
leading_zeros_loop-le (suc rounds) mask value count =
    ground (arith, leading_zeros_loop-le rounds (mask >>> 1) value (count + 1))

pub count_leading_zeros-IsWord : (value : ℕ) → IsWord (count_leading_zeros value)
unfolding count_leading_zeros
count_leading_zeros-IsWord value = omega (arith, leading_zeros_loop-le 33 0x80000000 value 0)

make_mask-IsWord : (width : ℕ) → IsWord (make_mask width)
unfolding make_mask
make_mask-IsWord width = ground arith

pub saturate_signed-IsWord :
    (value width : ℕ) {result : ℕ}
    → IsWord value
    → saturate_signed value width ≡ ok result
    → IsWord result
unfolding saturate_signed
saturate_signed-IsWord value width h e = ground (arith, make_mask-IsWord (width - 1))

pub rotate_right-IsWord : (value shift : ℕ) → IsWord value → IsWord (rotate_right value shift)
unfolding rotate_right
rotate_right-IsWord value shift h = elim (Bool-cases (shift == 0)) [
  | inl nought ↦ rw nought h
  | inr some ↦ rw some (
      bit_or-IsWord (value >>> shift) (value <<< (32 - shift)) (shr-le value shift h) (omega arith))
]
  where
    shr-le : (v k : ℕ) → IsWord v → IsWord (v >>> k)
    shr-le v k p = omega arith

compress_loop-IsWord :
    (left input value mask result output : ℕ)
    → IsWord result
    → IsWord (compress_loop left input value mask result output)
unfolding compress_loop
compress_loop-IsWord zero input value mask result output h = h
compress_loop-IsWord (suc left) input value mask result output h =
    elim (Bool-cases (bit_and mask (1 <<< input) == 0)) [
      | inl skip ↦ rw skip (compress_loop-IsWord left (input + 1) value mask result output h)
      | inr take ↦ rw take (
          compress_loop-IsWord left (input + 1) value mask
            (bit_or result (bit_and (value >>> input) 1 <<< output)) (output + 1)
            (bit_or-IsWord result (bit_and (value >>> input) 1 <<< output) h (u32-IsWord _)))
    ]

pub compress_bits-IsWord : (value mask : ℕ) → IsWord (compress_bits value mask)
unfolding compress_bits
compress_bits-IsWord value mask = compress_loop-IsWord 32 0 value mask 0 0 (omega arith)
