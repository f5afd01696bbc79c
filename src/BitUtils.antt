-- ===== src/BitUtils.antt =====
-- include/toy/bitutils.hpp and include/toy/toy_constants.hpp: masks, bit fields, sign extension and
-- the little-endian bytes of a word. The assertions of the header are the hypotheses of the
-- theorems about it; every call in the program meets them.
pub mod Fields
pub mod Signed
use toy_isa_v1_5_interpreter.Base.{ℕ, ◌+◌, ◌-◌, ◌*◌, ◌/◌, ◌%◌, ◌^◌, bit_and, bit_or, List, [], ◌∷◌}
use toy_isa_v1_5_interpreter.Base.{Bool, not32, u32, ◌<<<◌, ◌>>>◌, ◌==◌, if◌then◌else◌}

abbrev pub word_size : ℕ
word_size = 4

abbrev pub word_bit_count : ℕ
word_bit_count = 32

abbrev pub instruction_size : ℕ
instruction_size = 4

abbrev pub register_count : ℕ
register_count = 32

abbrev pub elf_machine : ℕ
elf_machine = 0x6767

unfoldable pub make_mask : ℕ → ℕ
make_mask width = if width == word_bit_count then not32 0 else (1 <<< width) - 1

unfoldable pub extract_bits : ℕ → ℕ → ℕ → ℕ
unfolding make_mask
extract_bits word offset width =
    if offset == word_bit_count then 0 else bit_and (word >>> offset) (make_mask width)

unfoldable pub sign_extend : ℕ → ℕ → ℕ
unfolding make_mask
sign_extend value width =
    let mask = make_mask width in
    let field = bit_and value mask in
    if width == word_bit_count
    then field
    else let sign_bit = 1 <<< (width - 1) in
      if bit_and field sign_bit == 0 then field else bit_or field (not32 mask)

-- The word of four bytes, lowest first, on a host of either byte order.
unfoldable pub decode_little_endian_word : List ℕ → ℕ
decode_little_endian_word [] = 0
decode_little_endian_word (byte ∷ bytes) = byte + 256 * decode_little_endian_word bytes

unfoldable pub encode_little_endian_word : ℕ → List ℕ
encode_little_endian_word value =
    (value % 256) ∷ (value / 256 % 256) ∷ (value / 65536 % 256) ∷ (value / 16777216 % 256) ∷ []
