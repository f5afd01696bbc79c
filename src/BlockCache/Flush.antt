-- ===== src/BlockCache/Flush.antt =====
-- What `flushInstructionCache` (src/toy/execution_context.cpp) and `invalidateRange`
-- (src/toy/basic_block_cache.cpp) leave of the code that was decoded before.
use toy_isa_v1_5_interpreter.Base.{
  ℕ, ◌+◌, ◌≡◌, refl, subst, sym, if◌then◌else◌, ◌⊎◌, Bool, true, false, Option, none, some, List,
  [], ◌∷◌, All, ◌==◌, Bool-cases, inl, inr, u64,
}
use toy_isa_v1_5_interpreter.Memory.{CodeRange}
use toy_isa_v1_5_interpreter.Machine.{BasicBlock, BlockCache}
use toy_isa_v1_5_interpreter.BlockCache.{
  find, assign, end_address, overlaps, invalidate, invalidate_blocks, invalidate_range,
  invalidate_ranges,
}

-- No entry, or the null pointer.
abbrev pub IsNull : Option ℕ → Type 0
IsNull none = Unit
IsNull (some entry) = entry ≡ 0

-- No native code is entered at `key`.
abbrev pub Cleared : ℕ → List (ℕ × ℕ) → Type 0
Cleared key entries = IsNull (find key entries)

-- A block that meets the range is not valid any more, and has no native entry.
abbrev pub IsFresh : CodeRange → List (ℕ × ℕ) → ℕ × BasicBlock → Type 0
IsFresh range entries (key, block) =
    (overlaps range.address (u64 (range.address + range.size)) block ≡ false)
    ⊎ ((block.is_valid ≡ false) × Cleared key entries)

if-IsNull :
    (b : Bool) (x y x' y' : Option ℕ)
    → (IsNull x → IsNull x')
    → (IsNull y → IsNull y')
    → IsNull (if b then x else y)
    → IsNull (if b then x' else y')
if-IsNull true x y x' y' f g h = f h
if-IsNull false x y x' y' f g h = g h

assign-Cleared :
    (key other : ℕ) (entries : List (ℕ × ℕ))
    → Cleared key entries
    → Cleared key (assign other 0 entries)
unfolding find assign
assign-Cleared key other [] h = tt
assign-Cleared key other ((k, e) ∷ entries) h = elim (Bool-cases (k == other)) [
  | inl hit ↦ rw hit (
      if-IsNull (k == key) (some e) (find key entries) (some 0) (find key entries) (λ _. refl)
        (λ p. p) h)
  | inr miss ↦ rw miss (
      if-IsNull (k == key) (some e) (find key entries) (some e) (find key (assign other 0 entries))
        (λ p. p) (assign-Cleared key other entries) h)
]

assign-clears : (key : ℕ) (entries : List (ℕ × ℕ)) → Cleared key (assign key 0 entries)
unfolding find assign
assign-clears key [] = tt
assign-clears key ((k, e) ∷ entries) = elim (Bool-cases (k == key)) [
  | inl hit ↦ rw (hit, hit) refl
  | inr miss ↦ rw (miss, miss) (assign-clears key entries)
]

-- A round of the pass, where the block meets the bytes and where it does not.
module _ (write_begin write_end key : ℕ) (block : BasicBlock) (blocks : List (ℕ × BasicBlock)) where
  round-hit :
      (entries : List (ℕ × ℕ))
      → overlaps write_begin write_end block ≡ true
      → (let (blocks', entries') =
            invalidate_blocks write_begin write_end blocks (assign key 0 entries) in
          invalidate_blocks write_begin write_end ((key, block) ∷ blocks) entries
          ≡ ((key, invalidate block) ∷ blocks', entries'))
  unfolding invalidate_blocks
  round-hit entries hit = rw hit refl

  round-miss :
      (entries : List (ℕ × ℕ))
      → overlaps write_begin write_end block ≡ false
      → (let (blocks', entries') = invalidate_blocks write_begin write_end blocks entries in
          invalidate_blocks write_begin write_end ((key, block) ∷ blocks) entries
          ≡ ((key, block) ∷ blocks', entries'))
  unfolding invalidate_blocks
  round-miss entries miss = rw miss refl

-- The results of a pass that meet `P`, which may depend on the native entries that are left.
abbrev AllAfter :
    (List (ℕ × ℕ) → ℕ × BasicBlock → Type 0) → List (ℕ × BasicBlock) × List (ℕ × ℕ) → Type 0
AllAfter P (blocks, entries) = All (P entries) blocks

-- Invalidation takes native entries away and makes none.
invalidate_blocks-Cleared :
    (write_begin write_end : ℕ) (blocks : List (ℕ × BasicBlock)) (entries : List (ℕ × ℕ)) (key : ℕ)
    → Cleared key entries
    → Cleared key (invalidate_blocks write_begin write_end blocks entries).1
unfolding invalidate_blocks
invalidate_blocks-Cleared write_begin write_end [] entries key h = h
invalidate_blocks-Cleared write_begin write_end ((k, block) ∷ blocks) entries key h =
    elim (Bool-cases (overlaps write_begin write_end block)) [
      | inl hit ↦ rw hit (
          invalidate_blocks-Cleared write_begin write_end blocks (assign k 0 entries) key
            (assign-Cleared key k entries h))
      | inr miss ↦ rw miss (invalidate_blocks-Cleared write_begin write_end blocks entries key h)
    ]

-- A pass makes the blocks fresh for its own range.
pass-makes :
    (range : CodeRange) (blocks : List (ℕ × BasicBlock)) (entries : List (ℕ × ℕ))
    → AllAfter
        (IsFresh range)
        (invalidate_blocks range.address (u64 (range.address + range.size)) blocks entries)
unfolding invalidate_blocks invalidate
pass-makes range [] entries = tt
pass-makes range ((k, block) ∷ blocks) entries =
    let write_end = u64 (range.address + range.size) in
    elim (Bool-cases (overlaps range.address write_end block)) [
      | inl hit ↦
          subst (AllAfter (IsFresh range))
            (sym (round-hit range.address write_end k block blocks entries hit))
            (
              inr (
                refl,
                invalidate_blocks-Cleared range.address write_end blocks (assign k 0 entries) k
                    (assign-clears k entries),
              ),
              pass-makes range blocks (assign k 0 entries),
            )
      | inr miss ↦
          subst (AllAfter (IsFresh range))
            (sym (round-miss range.address write_end k block blocks entries miss))
            (inl miss, pass-makes range blocks entries)
    ]

-- Taking entries away keeps a block fresh.
IsFresh-clear :
    (range : CodeRange) (key : ℕ) (block : BasicBlock) (entries entries' : List (ℕ × ℕ))
    → (Cleared key entries → Cleared key entries')
    → IsFresh range entries (key, block)
    → IsFresh range entries' (key, block)
IsFresh-clear range key block entries entries' f (inl apart) = inl apart
IsFresh-clear range key block entries entries' f (inr (old, cleared)) = inr (old, f cleared)

IsFresh-invalidate :
    (range : CodeRange) (key : ℕ) (block : BasicBlock) (entries : List (ℕ × ℕ))
    → IsFresh range entries (key, block)
    → IsFresh range entries (key, invalidate block)
unfolding invalidate end_address
IsFresh-invalidate range key block entries (inl apart) = inl apart
IsFresh-invalidate range key block entries (inr (old, cleared)) = inr (refl, cleared)

-- A pass keeps the blocks fresh for every range.
pass-keeps :
    (range : CodeRange) (write_begin write_end : ℕ) (blocks : List (ℕ × BasicBlock))
    (before entries : List (ℕ × ℕ))
    → ((key : ℕ) → Cleared key before → Cleared key entries)
    → All (IsFresh range before) blocks
    → AllAfter (IsFresh range) (invalidate_blocks write_begin write_end blocks entries)
unfolding invalidate_blocks
pass-keeps range write_begin write_end [] before entries f h = tt
pass-keeps range write_begin write_end ((k, block) ∷ blocks) before entries f h =
    elim (Bool-cases (overlaps write_begin write_end block)) [
      | inl hit ↦
          let left : List (ℕ × ℕ) = assign k 0 entries in
          subst (AllAfter (IsFresh range))
            (sym (round-hit write_begin write_end k block blocks entries hit))
            (
              IsFresh-clear range k (invalidate block) before
                  (invalidate_blocks write_begin write_end blocks left).1
                  (λ c.
                    invalidate_blocks-Cleared write_begin write_end blocks left k
                      (assign-Cleared k k entries (f k c)))
                  (IsFresh-invalidate range k block before h.0),
              pass-keeps range write_begin write_end blocks before left
                  (λ key c. assign-Cleared key k entries (f key c)) h.1,
            )
      | inr miss ↦
          subst (AllAfter (IsFresh range))
            (sym (round-miss write_begin write_end k block blocks entries miss))
            (
              IsFresh-clear range k block before
                  (invalidate_blocks write_begin write_end blocks entries).1
                  (λ c. invalidate_blocks-Cleared write_begin write_end blocks entries k (f k c))
                  h.0,
              pass-keeps range write_begin write_end blocks before entries f h.1,
            )
    ]

-- The cache is fresh for a range.
abbrev pub IsFreshCache : BlockCache → CodeRange → Type 0
IsFreshCache cache range = All (IsFresh range cache.jit_entries) cache.blocks

invalidate_ranges-keeps :
    (ranges : List CodeRange) (cache : BlockCache) (range : CodeRange)
    → IsFreshCache cache range
    → IsFreshCache (invalidate_ranges ranges cache) range
unfolding invalidate_ranges invalidate_range
invalidate_ranges-keeps [] cache range h = h
invalidate_ranges-keeps (r ∷ ranges) cache range h =
    invalidate_ranges-keeps ranges (invalidate_range r.address r.size cache) range (
      pass-keeps range r.address (u64 (r.address + r.size)) cache.blocks cache.jit_entries
        cache.jit_entries (λ key c. c) h)

pub invalidate_ranges-IsFreshCache :
    (ranges : List CodeRange) (cache : BlockCache)
    → All (IsFreshCache (invalidate_ranges ranges cache)) ranges
unfolding invalidate_ranges invalidate_range
invalidate_ranges-IsFreshCache [] cache = tt
invalidate_ranges-IsFreshCache (r ∷ ranges) cache =
    let after : BlockCache = invalidate_range r.address r.size cache in
    (
      invalidate_ranges-keeps ranges after r (pass-makes r cache.blocks cache.jit_entries),
      invalidate_ranges-IsFreshCache ranges after,
    )
