-- ===== src/BlockCache/Blocks.antt =====
-- `decodeBlock` of src/toy/basic_block_cache.cpp: the end of its loop, and the blocks it makes.
use toy_isa_v1_5_interpreter.Base.{
  ℕ, zero, suc, ◌+◌, ◌*◌, ◌/◌, ◌^◌, ◌≤◌, ◌<◌, ◌≡◌, arith, false, Bool-cases, inl, inr, Option, none,
  some, List, [], ◌∷◌, All, ltb, ltb→ge, u32, u64,
}
use toy_isa_v1_5_interpreter.Checked.{Checked, ok, fail, Checked-cases}
use toy_isa_v1_5_interpreter.Instruction.{Instruction}
use toy_isa_v1_5_interpreter.Decoder.{decode}
use toy_isa_v1_5_interpreter.Decoder.Shape.{IsDecoded, decode-IsDecoded}
use toy_isa_v1_5_interpreter.Memory.{Memory, size, read32, load_bytes}
use toy_isa_v1_5_interpreter.Memory.Access.{IsByte, read32_returns}
use toy_isa_v1_5_interpreter.Memory.Bytes.{
  All-load_bytes, length-load_bytes, decode_little_endian_word-lt,
}
use toy_isa_v1_5_interpreter.BlockCache.{
  ends_block, prepend, decode_round, decode_instructions, decode_fuel,
}

-- The instructions of a block: there are some, and only the last may end a block.
abbrev pub EndsOnce : List Instruction → Type 0
EndsOnce [] = ⊥
EndsOnce (inst ∷ []) = Unit
EndsOnce (inst ∷ (next ∷ rest)) = (ends_block inst.op_code ≡ false) × EndsOnce (next ∷ rest)

-- A block as the decoder makes it.
pub record IsBlock (insts : List Instruction) : Type 0 where
  pub ends_once : EndsOnce insts
  pub decoded : All IsDecoded insts

-- A word that is read is a 32-bit word.
pub read32-lt :
    (memory : Memory) (address : ℕ) {value : ℕ}
    → All IsByte memory.bytes
    → address < 2 ^ 32
    → read32 memory address ≡ ok value
    → value < 2 ^ 32
unfolding load_bytes
read32-lt memory address bytes word h =
    let (bounds, aligned, e) = read32_returns memory address word h in
    rw e (
      omega (
        arith,
        length-load_bytes memory.bytes address 4,
        decode_little_endian_word-lt (load_bytes memory.bytes address 4)
            (All-load_bytes IsByte memory.bytes address 4 (omega arith) bytes),
      ))

-- The loop ended, with an error or with a block.
abbrev pub IsDone : Option (Checked (List Instruction)) → Type 0
IsDone none = ⊥
IsDone (some (fail e)) = Unit
IsDone (some (ok insts)) = IsBlock insts

single-IsBlock : (inst : Instruction) → IsDecoded inst → IsBlock (inst ∷ [])
single-IsBlock inst d = record { ends_once = tt; decoded = (d, tt) }

prepend-IsDone :
    (inst : Instruction) (rest : Option (Checked (List Instruction)))
    → IsDecoded inst
    → ends_block inst.op_code ≡ false
    → IsDone rest
    → IsDone (prepend inst rest)
prepend-IsDone inst none d h r = r
prepend-IsDone inst (some (fail e)) d h r = tt
prepend-IsDone inst (some (ok [])) d h r = absurd r.ends_once
prepend-IsDone inst (some (ok (next ∷ rest))) d h r = record {
  ends_once = (h, r.ends_once);
  decoded = (d, r.decoded);
}

module _ (memory : Memory) (small : size memory < 2 ^ 32) (bytes : All IsByte memory.bytes) where
  decode_round-IsDone :
      (next w : ℕ) (rest : Option (Checked (List Instruction)))
      → w < 2 ^ 32
      → (u64 (next + 4) ≤ size memory → IsDone rest)
      → IsDone (decode_round memory next rest (ok w))
  unfolding decode_round
  decode_round-IsDone next w rest fits more = elim (Bool-cases (ends_block (decode w).op_code)) [
    | inl last ↦ rw last (single-IsBlock (decode w) (decode-IsDecoded w fits))
    | inr inner ↦ rw inner (elim (Bool-cases (ltb (size memory) (u64 (next + 4)))) [
      | inl end ↦ rw end (single-IsBlock (decode w) (decode-IsDecoded w fits))
      | inr left ↦ rw left (
          prepend-IsDone (decode w) rest (decode-IsDecoded w fits) inner
            (more (ltb→ge (size memory) (u64 (next + 4)) left)))
    ])
  ]

  round-IsDone :
      (fuel address : ℕ)
      → address < 2 ^ 32
      → (address + 8 ≤ size memory → IsDone (decode_instructions fuel memory (address + 4)))
      → IsDone (decode_instructions (suc fuel) memory address)
  unfolding decode_instructions
  round-IsDone fuel address word more = elim (Checked-cases (read32 memory address)) [
    | inr (e, q) ↦ rw (q, decode_round) tt
    | inl (w, q) ↦
        let inside = (read32_returns memory address word q).0.0 in
        let next : u32 (address + 4) ≡ address + 4 = omega arith in
        rw (q, next, decode_round)
          (decode_round-IsDone (address + 4) w (decode_instructions fuel memory (address + 4))
            (read32-lt memory address bytes word q) (λ left. more (omega arith)))
  ]

  -- With fuel for every word from `address` up the loop ends.
  loop-IsDone :
      (fuel address : ℕ)
      → address < 2 ^ 32
      → size memory < address + 4 * suc fuel
      → IsDone (decode_instructions (suc fuel) memory address)
  loop-IsDone zero address word h = round-IsDone zero address word (λ inside. absurd (omega arith))
  loop-IsDone (suc fuel) address word h =
      round-IsDone (suc fuel) address word
        (λ inside. loop-IsDone fuel (address + 4) (omega arith) (omega arith))

  -- In a memory of less than 2^32 bytes the fuel of `decode_block` is enough from any address: the
  -- loop ends with an error or with a block, whose instructions are all decoded and of which only
  -- the last one may end a block.
  pub decode_instructions-IsDone :
      (address : ℕ)
      → address < 2 ^ 32
      → IsDone (decode_instructions (decode_fuel memory) memory address)
  unfolding decode_fuel
  decode_instructions-IsDone address word =
      let e : size memory / 4 + 1 ≡ suc (size memory / 4) = omega arith in
      rw e (loop-IsDone (size memory / 4) address word (omega arith))
