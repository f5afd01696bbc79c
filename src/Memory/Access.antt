-- ===== src/Memory/Access.antt =====
-- When the accesses of include/toy/memory.hpp succeed, and with which error they fail.
use toy_isa_v1_5_interpreter.Base.{ℕ, ◌+◌, ◌%◌, ◌^◌, ◌≤◌, ◌<◌, ◌≡◌, arith}
use toy_isa_v1_5_interpreter.BitUtils.{decode_little_endian_word}
use toy_isa_v1_5_interpreter.Checked.{ok}
use toy_isa_v1_5_interpreter.Memory.{
  Memory, size, check_bounds, check_alignment, load_bytes, readable_range, range_bytes, read32,
}

-- The bytes `[address, address + count)` lie in the memory and below 2^32.
abbrev pub InBounds : Memory → ℕ → ℕ → Type 0
InBounds memory address count = (address + count ≤ size memory) × (address + count ≤ 2 ^ 32)

pub check_bounds-ok :
    (memory : Memory) (address count : ℕ)
    → InBounds memory address count
    → check_bounds memory address count ≡ ok tt
unfolding check_bounds
check_bounds-ok memory address count h = ground arith

pub check_bounds-InBounds :
    (memory : Memory) (address count : ℕ)
    → address ≤ 2 ^ 32
    → check_bounds memory address count ≡ ok tt
    → InBounds memory address count
unfolding check_bounds
check_bounds-InBounds memory address count word h = ground arith

-- The byte list is made of bytes.
abbrev pub IsByte : ℕ → Type 0
IsByte b = b < 256

-- Any read of a word that returns lies in bounds and is aligned.
pub read32_returns :
    (memory : Memory) (address : ℕ) {value : ℕ}
    → address < 2 ^ 32
    → read32 memory address ≡ ok value
    → InBounds memory address 4
      × (address % 4 ≡ 0)
      × (value ≡ decode_little_endian_word (load_bytes memory.bytes address 4))
unfolding read32 check_bounds check_alignment readable_range range_bytes
read32_returns memory address word h = ground arith
