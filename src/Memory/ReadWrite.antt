-- ===== src/Memory/ReadWrite.antt =====
-- `read32` and `write32` of include/toy/memory.hpp against each other.
use toy_isa_v1_5_interpreter.Base.{
  ℕ, ◌+◌, ◌%◌, ◌^◌, ◌≤◌, ◌<◌, ◌≡◌, arith, ◌⊎◌, List, length, leb, ◌&&◌, if◌then◌else◌, ap, ◌∙◌, sym,
  ◌==◌,
}
use toy_isa_v1_5_interpreter.BitUtils.{decode_little_endian_word, encode_little_endian_word}
use toy_isa_v1_5_interpreter.Checked.{ErrorCode, Checked, ok, fail}
use toy_isa_v1_5_interpreter.Memory.{
  Memory, size, check_bounds, check_alignment, load_bytes, readable_range, writable_range,
  range_bytes, read32, write32, fill_range, mark_code_dirty, store_bytes,
}
use toy_isa_v1_5_interpreter.Memory.Access.{InBounds}
use toy_isa_v1_5_interpreter.Memory.Bytes.{
  length-store_bytes, load_bytes-store_bytes, load_bytes-ext, get_or-store_bytes_outside,
  decode-encode_little_endian_word,
}

pub read32_ok :
    (memory : Memory) (address : ℕ)
    → InBounds memory address 4
    → address % 4 ≡ 0
    → read32 memory address ≡ ok (decode_little_endian_word (load_bytes memory.bytes address 4))
unfolding read32 check_bounds check_alignment readable_range range_bytes
read32_ok memory address h aligned = ground arith

-- What a successful write leaves behind.
pub record IsWritten (memory : Memory) (address value : ℕ) (memory' : Memory) : Type 0 where
  pub in_bounds : InBounds memory address 4
  pub aligned : address % 4 ≡ 0
  pub stored : memory'.bytes ≡ store_bytes memory.bytes address (encode_little_endian_word value)
  pub regions : memory'.executable_regions ≡ memory.executable_regions

pub write32_returns :
    (memory memory' : Memory) (address value : ℕ)
    → address < 2 ^ 32
    → write32 memory address value ≡ ok memory'
    → IsWritten memory address value memory'
unfolding write32 check_bounds check_alignment writable_range fill_range mark_code_dirty
write32_returns memory memory' address value word h = ground arith

abbrev pub stored_word : Memory → ℕ → ℕ → Memory
stored_word memory address value =
    mark_code_dirty
      (record memory { bytes = store_bytes memory.bytes address (encode_little_endian_word value) })
      address 4

-- An access of a word: out of bounds first, then misaligned, and else its value.
abbrev pub access {ℓ} : {A : Type ℓ} → Memory → ℕ → A → Checked A
access memory address result =
    if leb (address + 4) (size memory) && leb (address + 4) (2 ^ 32)
    then if address % 4 == 0 then ok result else fail ErrorCode.misaligned_access
    else fail ErrorCode.memory_out_of_bounds

read32-eq-access :
    (memory : Memory) (address : ℕ)
    → address < 2 ^ 32
    → read32 memory address
      ≡ access memory address (decode_little_endian_word (load_bytes memory.bytes address 4))
unfolding read32 check_bounds check_alignment readable_range range_bytes
read32-eq-access memory address word = ground arith

write32-eq-access :
    (memory : Memory) (address value : ℕ)
    → address < 2 ^ 32
    → write32 memory address value ≡ access memory address (stored_word memory address value)
unfolding write32 check_bounds check_alignment writable_range fill_range
write32-eq-access memory address value word = ground arith

-- `read32` and `write32` succeed on the same addresses, those of an aligned word inside the memory,
-- and fail with the same error on all others: out of bounds before misaligned. The address is
-- below 2^32.
pub read32-write32-access :
    (memory : Memory) (address value : ℕ)
    → address < 2 ^ 32
    → (read32 memory address
        ≡ access memory address (decode_little_endian_word (load_bytes memory.bytes address 4)))
      × (write32 memory address value ≡ access memory address (stored_word memory address value))
read32-write32-access memory address value word =
    (read32-eq-access memory address word, write32-eq-access memory address value word)

-- A word that `write32` wrote, at an address below 2^32, is read back by `read32` there.
pub read32-write32 :
    (memory memory' : Memory) (address value : ℕ)
    → address < 2 ^ 32
    → value < 2 ^ 32
    → write32 memory address value ≡ ok memory'
    → read32 memory' address ≡ ok value
unfolding encode_little_endian_word
read32-write32 memory memory' address value word fits h =
    let w = write32_returns memory memory' address value word h in
    let new : List ℕ = encode_little_endian_word value in
    let bounds : InBounds memory' address 4 =
      (rw (w.stored, length-store_bytes memory.bytes address new) w.in_bounds.0, w.in_bounds.1) in
    read32_ok memory' address bounds w.aligned
    ∙ ap ok (
        ap (λ (b : List ℕ). decode_little_endian_word (load_bytes b address 4)) w.stored
        ∙ ap decode_little_endian_word
            (load_bytes-store_bytes memory.bytes address new w.in_bounds.0)
        ∙ decode-encode_little_endian_word value fits)

-- A word that does not meet the one that `write32` wrote reads as before, the error of a bad
-- address included; both addresses are below 2^32.
pub read32-write32_ne :
    (memory memory' : Memory) (address value other : ℕ)
    → address < 2 ^ 32
    → other < 2 ^ 32
    → (other + 4 ≤ address) ⊎ (address + 4 ≤ other)
    → write32 memory address value ≡ ok memory'
    → read32 memory' other ≡ read32 memory other
read32-write32_ne memory memory' address value other word word' apart h =
    let w = write32_returns memory memory' address value word h in
    let new : List ℕ = encode_little_endian_word value in
    let same : load_bytes memory'.bytes other 4 ≡ load_bytes memory.bytes other 4 =
      ap (λ (b : List ℕ). load_bytes b other 4) w.stored
      ∙ load_bytes-ext 4 (store_bytes memory.bytes address new) memory.bytes other (λ k p q.
        get_or-store_bytes_outside memory.bytes address new k
          (unfold encode_little_endian_word in omega arith)) in
    let sizes : size memory' ≡ size memory =
      ap length w.stored ∙ length-store_bytes memory.bytes address new in
    read32-eq-access memory' other word'
    ∙ (rw (same, sizes) (sym (read32-eq-access memory other word')))
