-- ===== src/Arith.antt =====
-- `ExecutorDetail` of src/toy/executor.cpp: the arithmetic of CLZ, SSAT, RORI and BEXT.
pub mod Leading
pub mod Compress
pub mod Rotate
pub mod Saturate
use toy_isa_v1_5_interpreter.Base.{
  ℕ, zero, suc, ◌+◌, ◌-◌, bit_and, bit_or, ◌||◌, ltb, leb, ◌==◌, if◌then◌else◌, not32, ◌<<<◌, ◌>>>◌,
}
use toy_isa_v1_5_interpreter.BitUtils.{word_bit_count, make_mask}
use toy_isa_v1_5_interpreter.Checked.{ErrorCode, Checked, ok, fail}

-- The loop of `countLeadingZeros`, on the rounds that the mask has left at most.
unfoldable pub leading_zeros_loop : ℕ → ℕ → ℕ → ℕ → ℕ
leading_zeros_loop zero mask value count = count
leading_zeros_loop (suc rounds) mask value count =
    let next = leading_zeros_loop rounds (mask >>> 1) value (count + 1) in
    if mask == 0 then count else if bit_and value mask == 0 then next else count

-- The mask has 32 values before it is 0.
unfoldable pub count_leading_zeros : ℕ → ℕ
unfolding leading_zeros_loop
count_leading_zeros value = leading_zeros_loop 33 0x80000000 value 0

unfoldable pub saturate_signed : ℕ → ℕ → Checked ℕ
saturate_signed value width =
    if width == 0 || leb word_bit_count width
    then fail ErrorCode.invalid_instruction
    else let maximum = make_mask (width - 1) in
      let minimum = not32 maximum in
      let sign_bit = 1 <<< (word_bit_count - 1) in
      if bit_and value sign_bit == 0
      then ok (if ltb maximum value then maximum else value)
      else ok (if ltb value minimum then minimum else value)

unfoldable pub rotate_right : ℕ → ℕ → ℕ
rotate_right value shift =
    if shift == 0 then value else bit_or (value >>> shift) (value <<< (word_bit_count - shift))

-- The loop of `compressBits` from bit `input_bit`, with `left` bits to go.
unfoldable pub compress_loop : ℕ → ℕ → ℕ → ℕ → ℕ → ℕ → ℕ
compress_loop zero input_bit value mask result output_bit = result
compress_loop (suc left) input_bit value mask result output_bit =
    let selected =
      compress_loop left (input_bit + 1) value mask
        (bit_or result (bit_and (value >>> input_bit) 1 <<< output_bit)) (output_bit + 1) in
    let skipped = compress_loop left (input_bit + 1) value mask result output_bit in
    if bit_and mask (1 <<< input_bit) == 0 then skipped else selected

unfoldable pub compress_bits : ℕ → ℕ → ℕ
unfolding compress_loop
compress_bits value mask = compress_loop word_bit_count 0 value mask 0 0
