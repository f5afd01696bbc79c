-- ===== src/Tests/Arithmetic.antt =====
-- The theorems of `Arith` at concrete words.
use toy_isa_v1_5_interpreter.Base.{ℕ, ◌+◌, ◌*◌, ◌/◌, ◌%◌, ◌^◌, ◌≡◌, arith}
use toy_isa_v1_5_interpreter.Base.Int.{to_signed}
use toy_isa_v1_5_interpreter.Checked.{ok}
use toy_isa_v1_5_interpreter.Arith.{
  count_leading_zeros, saturate_signed, rotate_right, compress_bits,
}
use toy_isa_v1_5_interpreter.Arith.Leading.{HasBits, count_leading_zeros_lem}
use toy_isa_v1_5_interpreter.Arith.Saturate.{clamp_signed, saturate_signed_lem}
use toy_isa_v1_5_interpreter.Arith.Rotate.{rotate_right_lem, rotate_right-rotate_right}
use toy_isa_v1_5_interpreter.Arith.Compress.{selected_bits, compress_bits_lem}

count_leading_zeros_lem_example :
    (bits : ℕ) × (count_leading_zeros 0x1234 + bits ≡ 32) × HasBits 0x1234 bits
count_leading_zeros_lem_example = count_leading_zeros_lem 0x1234 (omega arith)

-- -300 is saturated to 8 bits.
saturate_signed_lem_example :
    (result : ℕ) × (saturate_signed 0xFFFFFED4 8 ≡ ok result)
    × (to_signed 32 result ≡ clamp_signed (2 ^ 7) (to_signed 32 0xFFFFFED4))
saturate_signed_lem_example =
    saturate_signed_lem 0xFFFFFED4 8 (omega arith) (omega arith) (omega arith)

rotate_right_lem_example :
    rotate_right 0x12345678 8 ≡ 0x12345678 % 2 ^ 8 * 2 ^ 24 + 0x12345678 / 2 ^ 8
rotate_right_lem_example = rotate_right_lem 0x12345678 8 (omega arith) (omega arith)

compress_bits_lem_example :
    compress_bits 0x12345678 0xF0F0F0F0 ≡ selected_bits 32 0x12345678 0xF0F0F0F0
compress_bits_lem_example = compress_bits_lem 0x12345678 0xF0F0F0F0

rotate_right-rotate_right_example : rotate_right (rotate_right 0x12345678 5) 27 ≡ 0x12345678
rotate_right-rotate_right_example =
    rotate_right-rotate_right 0x12345678 5 (omega arith) (omega arith) (omega arith)
