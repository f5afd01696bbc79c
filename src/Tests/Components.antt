-- ===== src/Tests/Components.antt =====
-- The theorems about memory, bit fields, the decoder and the loader at concrete inputs.
use toy_isa_v1_5_interpreter.Base.{replicate, ◌≡◌, refl, arith, ◌/◌, ◌%◌, ◌^◌, inr}
use toy_isa_v1_5_interpreter.Base.Int.{to_signed}
use toy_isa_v1_5_interpreter.BitUtils.{extract_bits, sign_extend, decode_little_endian_word}
use toy_isa_v1_5_interpreter.BitUtils.Fields.{extract_bits_lem}
use toy_isa_v1_5_interpreter.BitUtils.Signed.{to_signed-sign_extend}
use toy_isa_v1_5_interpreter.Checked.{ok, fail, ErrorCode}
use toy_isa_v1_5_interpreter.Memory.{Memory, read32, write32, load_bytes}
use toy_isa_v1_5_interpreter.Memory.ReadWrite.{
  access, stored_word, read32-write32-access, read32-write32, read32-write32_ne,
}
use toy_isa_v1_5_interpreter.Instruction.{Opcode}
use toy_isa_v1_5_interpreter.Decoder.{
  DecodeInfo, row, decode, decode_clz, decode_vector, with_handler,
}
use toy_isa_v1_5_interpreter.Decoder.Table.{decode-row}
use toy_isa_v1_5_interpreter.Machine.{Context}
use toy_isa_v1_5_interpreter.Machine.Monad.{returned, undefined}
use toy_isa_v1_5_interpreter.Loader.{Segment, load_segment}
use toy_isa_v1_5_interpreter.Loader.Contents.{image, load_segment_lem}
use toy_isa_v1_5_interpreter.Loader.Truncated.{load_segment-undefined_iff}
use toy_isa_v1_5_interpreter.Samples.{program, segment, loaded}

abbrev written : Memory
written = stored_word program 4 0x12345678

written_lem : write32 program 4 0x12345678 ≡ ok written
unfolding write32
written_lem = refl

read32-write32_example : read32 written 4 ≡ ok 0x12345678
read32-write32_example =
    read32-write32 program written 4 0x12345678 (omega arith) (omega arith) written_lem

read32-write32_ne_example : read32 written 8 ≡ read32 program 8
read32-write32_ne_example =
    read32-write32_ne program written 4 0x12345678 8 (omega arith) (omega arith) (inr (omega arith))
      written_lem

read32-write32-access_example :
    (read32 program 6 ≡ access program 6 (decode_little_endian_word (load_bytes program.bytes 6 4)))
    × (write32 program 6 7 ≡ access program 6 (stored_word program 6 7))
read32-write32-access_example = read32-write32-access program 6 7 (omega arith)

-- A read at 6 is misaligned, and one at 10 is out of bounds first.
read32_errors :
    (read32 program 6 ≡ fail ErrorCode.misaligned_access)
    × (read32 program 10 ≡ fail ErrorCode.memory_out_of_bounds)
unfolding read32
read32_errors = (refl, refl)

extract_bits_lem_example : extract_bits 0x2C08003C 16 5 ≡ 0x2C08003C / 2 ^ 16 % 2 ^ 5
extract_bits_lem_example = extract_bits_lem 0x2C08003C 16 5 (omega arith) (omega arith)

to_signed-sign_extend_example :
    to_signed 32 (sign_extend 0x3FFF 14) ≡ to_signed 14 (0x3FFF % 2 ^ 14)
to_signed-sign_extend_example = to_signed-sign_extend 0x3FFF 13 (omega arith)

-- A CLZ of r7 into r3 stands in row 6 of the table.
abbrev clz_row : DecodeInfo
clz_row = row Opcode.clz 0xFC00FFFF 0x00000032 decode_clz

decode-row_example : decode 0x00E30032 ≡ with_handler (decode_clz 0x00E30032)
unfolding decode_vector
decode-row_example = decode-row 0x00E30032 clz_row refl 6 refl

-- Two words of the file and one of zeros.
abbrev short_segment : Segment
short_segment = record segment { file_size = 8; memory_size = 12 }

load_segment_lem_example :
    (c' : Context) × (load_segment short_segment loaded ≡ returned tt c')
    × (load_bytes c'.memory.bytes 0 12 ≡ image short_segment)
load_segment_lem_example =
    load_segment_lem short_segment loaded (omega arith) (omega arith) (omega arith)

-- A file that ends two bytes before its segment.
abbrev cut_segment : Segment
cut_segment = record short_segment { file_size = 14; memory_size = 14 }

abbrev wide : Context
wide = record loaded { memory = record program { bytes = replicate 16 0 } }

cut_segment-undefined : load_segment cut_segment wide ≡ undefined
cut_segment-undefined =
    (load_segment-undefined_iff cut_segment wide).1
      (record { sized = omega arith; inside = (omega arith, omega arith); short = omega arith })
