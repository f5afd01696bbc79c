-- ===== src/BlockCache/Touched.antt =====
-- Which blocks a write touches, told by the bytes of their code, against the test of `invalidateRange`
-- in src/toy/basic_block_cache.cpp.
use toy_isa_v1_5_interpreter.Base.{
  ℕ, zero, suc, ◌+◌, ◌-◌, ◌*◌, ◌^◌, ◌<◌, ◌≡◌, refl, sym, ap, ◌∙◌, arith, Bool, true, false, ◌||◌,
  ◌&&◌, ltb, leb, List, [], ◌∷◌, length, Bool-cases, inl, inr, ◌==◌, ==_iff, u64,
}
use toy_isa_v1_5_interpreter.Memory.{CodeRange}
use toy_isa_v1_5_interpreter.Machine.{BasicBlock}
use toy_isa_v1_5_interpreter.BlockCache.{end_address, overlaps}

-- Whether a number below `n` passes a test.
any_below : ℕ → (ℕ → Bool) → Bool
any_below zero test = false
any_below (suc n) test = test n || any_below n test

true_differs : true ≡ false → ⊥
true_differs e = absurd (cc)

any_below-true : (n : ℕ) (test : ℕ → Bool) (k : ℕ) → k < n → test k ≡ true → any_below n test ≡ true
unfolding any_below
any_below-true zero test k less h = absurd (omega arith)
any_below-true (suc n) test k less h = elim (Bool-cases (test n)) [
  | inl hit ↦ rw hit refl
  | inr miss ↦ rw miss (elim (Bool-cases (k == n)) [
    | inl same ↦ absurd (true_differs (sym h ∙ ap test ((==_iff k n).0 same) ∙ miss))
    | inr other ↦ any_below-true n test k (ground arith) h
  ])
]

any_below-false :
    (n : ℕ) (test : ℕ → Bool) → ((k : ℕ) → k < n → test k ≡ false) → any_below n test ≡ false
unfolding any_below
any_below-false zero test h = refl
any_below-false (suc n) test h =
    rw (h n (omega arith)) (any_below-false n test λ k less. h k (omega arith))

-- The byte at `address` is one of the range.
abbrev pub in_range : CodeRange → ℕ → Bool
in_range range address = leb range.address address && ltb address (range.address + range.size)

-- One of the bytes of the code of the block is in the range.
unfoldable pub is_touched : CodeRange → BasicBlock → Bool
unfolding any_below
is_touched range block =
    any_below (4 * length block.instructions) (λ k. in_range range (block.start_address + k))

-- One of the bytes of the code of the block is in one of the ranges.
unfoldable pub is_changed : List CodeRange → BasicBlock → Bool
unfolding is_touched
is_changed [] block = false
is_changed (range ∷ ranges) block = is_touched range block || is_changed ranges block

-- A range with a byte that ends below 2^64.
abbrev pub IsRange : CodeRange → Type 0
IsRange range = (0 < range.size) × (range.address + range.size < 2 ^ 64)

-- A block with an instruction that ends below 2^32.
abbrev pub FitsBlock : ℕ × BasicBlock → Type 0
FitsBlock (key, block) =
    (0 < length block.instructions) × (block.start_address + 4 * length block.instructions < 2 ^ 32)

-- The test of `invalidateRange` finds the blocks with a byte in the range.
pub overlaps-eq-is_touched :
    (range : CodeRange) (key : ℕ) (block : BasicBlock)
    → IsRange range
    → FitsBlock (key, block)
    → overlaps range.address (u64 (range.address + range.size)) block ≡ is_touched range block
unfolding is_touched end_address
overlaps-eq-is_touched range key block r b =
    let write_end = u64 (range.address + range.size) in
    let bytes : ℕ = 4 * length block.instructions in
    let test : ℕ → Bool = λ k. in_range range (block.start_address + k) in
    elim (Bool-cases (overlaps range.address write_end block)) [
      | inl hit ↦ elim (Bool-cases (leb range.address block.start_address)) [
        | inl before ↦ hit ∙ sym (any_below-true bytes test 0 (omega arith) (ground arith))
        | inr behind ↦
            hit
            ∙ sym (
                any_below-true bytes test (range.address - block.start_address) (ground arith)
                  (ground arith))
      ]
      | inr miss ↦ miss ∙ sym (any_below-false bytes test λ k less. ground arith)
    ]
