-- ===== src/BlockCache/Dirty.antt =====
-- What the flush of src/toy/execution_context.cpp and src/toy/basic_block_cache.cpp does to each entry
-- of the cache.
use toy_isa_v1_5_interpreter.Base.{
  ℕ, ◌+◌, ◌≡◌, refl, sym, ap, ◌∙◌, Bool, true, false, ◌||◌, if◌then◌else◌, List, [], ◌∷◌, map, All,
  Bool-cases, inl, inr, u64, subst,
}
use toy_isa_v1_5_interpreter.Memory.{CodeRange, take_dirty_code_ranges}
use toy_isa_v1_5_interpreter.Machine.{BasicBlock, BlockCache, Context}
use toy_isa_v1_5_interpreter.Machine.Monad.{returned}
use toy_isa_v1_5_interpreter.BlockCache.{
  end_address, overlaps, invalidate, invalidate_blocks, invalidate_range, invalidate_ranges,
  flush_instruction_cache, assign,
}
use toy_isa_v1_5_interpreter.BlockCache.Flush.{Cleared, IsFresh, invalidate_ranges-IsFreshCache}
use toy_isa_v1_5_interpreter.BlockCache.Touched.{
  IsRange, FitsBlock, is_touched, is_changed, overlaps-eq-is_touched,
}

-- A pass over the blocks, and a flush, as they change an entry of the cache.
abbrev pass : CodeRange → ℕ × BasicBlock → ℕ × BasicBlock
pass range (key, block) = (key, if is_touched range block then invalidate block else block)

abbrev pub flushed : List CodeRange → ℕ × BasicBlock → ℕ × BasicBlock
flushed ranges (key, block) = (key, if is_changed ranges block then invalidate block else block)

invalidate_blocks-pass :
    (range : CodeRange) (blocks : List (ℕ × BasicBlock)) (entries : List (ℕ × ℕ))
    → IsRange range
    → All FitsBlock blocks
    → (invalidate_blocks range.address (u64 (range.address + range.size)) blocks entries).0
      ≡ map (pass range) blocks
unfolding invalidate_blocks
invalidate_blocks-pass range [] entries r h = refl
invalidate_blocks-pass range ((key, block) ∷ blocks) entries r h =
    let write_end = u64 (range.address + range.size) in
    let same = overlaps-eq-is_touched range key block r h.0 in
    elim (Bool-cases (overlaps range.address write_end block)) [
      | inl hit ↦
          let touched : is_touched range block ≡ true = sym same ∙ hit in
          rw (hit, touched)
            (ap (λ (rest : List (ℕ × BasicBlock)). (key, invalidate block) ∷ rest)
              (invalidate_blocks-pass range blocks (assign key 0 entries) r h.1))
      | inr miss ↦
          let apart : is_touched range block ≡ false = sym same ∙ miss in
          rw (miss, apart)
            (ap (λ (rest : List (ℕ × BasicBlock)). (key, block) ∷ rest)
              (invalidate_blocks-pass range blocks entries r h.1))
    ]

-- Invalidation leaves the address and the instructions.
pass-FitsBlock :
    (range : CodeRange) (blocks : List (ℕ × BasicBlock))
    → All FitsBlock blocks
    → All FitsBlock (map (pass range) blocks)
unfolding invalidate
pass-FitsBlock range [] h = tt
pass-FitsBlock range ((key, block) ∷ blocks) h =
    (one (is_touched range block), pass-FitsBlock range blocks h.1)
  where
    one : (t : Bool) → FitsBlock (key, if t then invalidate block else block)
    one true = h.0
    one false = h.0

invalidate-twice :
    (t : Bool) (block : BasicBlock)
    → (if t then invalidate (invalidate block) else invalidate block) ≡ invalidate block
unfolding invalidate
invalidate-twice true block = refl
invalidate-twice false block = refl

flushed-pass :
    (range : CodeRange) (ranges : List CodeRange) (entry : ℕ × BasicBlock)
    → flushed ranges (pass range entry) ≡ flushed (range ∷ ranges) entry
unfolding is_changed
flushed-pass range ranges (key, block) = elim (Bool-cases (is_touched range block)) [
  | inl hit ↦ rw hit (
      ap (λ (b : BasicBlock). (key, b))
        (invalidate-twice (is_changed ranges (invalidate block)) block))
  | inr miss ↦ rw miss refl
]

flushed-map-pass :
    (range : CodeRange) (ranges : List CodeRange) (blocks : List (ℕ × BasicBlock))
    → map (flushed ranges) (map (pass range) blocks) ≡ map (flushed (range ∷ ranges)) blocks
flushed-map-pass range ranges [] = refl
flushed-map-pass range ranges (entry ∷ blocks) =
    rw (flushed-pass range ranges entry, flushed-map-pass range ranges blocks) refl

invalidate_ranges-flushed :
    (ranges : List CodeRange) (cache : BlockCache)
    → All IsRange ranges
    → All FitsBlock cache.blocks
    → (invalidate_ranges ranges cache).blocks ≡ map (flushed ranges) cache.blocks
unfolding invalidate_ranges invalidate_range is_changed
invalidate_ranges-flushed [] cache r h = map_same cache.blocks
  where
    map_same : (blocks : List (ℕ × BasicBlock)) → blocks ≡ map (flushed []) blocks
    map_same [] = refl
    map_same ((key, block) ∷ blocks) =
        ap (λ (rest : List (ℕ × BasicBlock)). (key, block) ∷ rest) (map_same blocks)
invalidate_ranges-flushed (range ∷ ranges) cache r h =
    let next : BlockCache = invalidate_range range.address range.size cache in
    let first : next.blocks ≡ map (pass range) cache.blocks =
      invalidate_blocks-pass range cache.blocks cache.jit_entries r.0 h in
    invalidate_ranges-flushed ranges next r.1
      (subst (All FitsBlock) (sym first) (pass-FitsBlock range cache.blocks h))
    ∙ ap (map (flushed ranges)) first
    ∙ flushed-map-pass range ranges cache.blocks

-- An address that was invalidated has no native entry.
abbrev pub ClearedIf : Bool → ℕ → List (ℕ × ℕ) → Type 0
ClearedIf true key entries = Cleared key entries
ClearedIf false key entries = Unit

ClearedIf-Cleared :
    (t : Bool) (key : ℕ) (entries : List (ℕ × ℕ)) → Cleared key entries → ClearedIf t key entries
ClearedIf-Cleared true key entries h = h
ClearedIf-Cleared false key entries h = tt

ClearedIf-or :
    (t t' : Bool) (key : ℕ) (entries : List (ℕ × ℕ))
    → ClearedIf t key entries
    → ClearedIf t' key entries
    → ClearedIf (t || t') key entries
ClearedIf-or true t' key entries h k = h
ClearedIf-or false t' key entries h k = k

-- The slots of the blocks that the ranges touch.
abbrev pub SlotCleared : List CodeRange → List (ℕ × ℕ) → ℕ × BasicBlock → Type 0
SlotCleared ranges entries (key, block) = ClearedIf (is_changed ranges block) key entries

module _ (entries : List (ℕ × ℕ)) (all : List CodeRange) where
  IsFresh-ClearedIf :
      (range : CodeRange) (key : ℕ) (block : BasicBlock)
      → IsRange range
      → FitsBlock (key, block)
      → (t : Bool) → IsFresh range entries (key, if t then invalidate block else block)
      → ClearedIf (is_touched range block) key entries
  unfolding invalidate end_address
  IsFresh-ClearedIf range key block r h true (inl apart) =
      rw (← overlaps-eq-is_touched range key block r h, apart) tt
  IsFresh-ClearedIf range key block r h true (inr (old, cleared)) =
      ClearedIf-Cleared (is_touched range block) key entries cleared
  IsFresh-ClearedIf range key block r h false (inl apart) =
      rw (← overlaps-eq-is_touched range key block r h, apart) tt
  IsFresh-ClearedIf range key block r h false (inr (old, cleared)) =
      ClearedIf-Cleared (is_touched range block) key entries cleared

  -- One range more.
  range-SlotCleared :
      (range : CodeRange) (ranges : List CodeRange) (blocks : List (ℕ × BasicBlock))
      → IsRange range
      → All FitsBlock blocks
      → All (IsFresh range entries) (map (flushed all) blocks)
      → All (SlotCleared ranges entries) blocks
      → All (SlotCleared (range ∷ ranges) entries) blocks
  unfolding is_changed
  range-SlotCleared range ranges [] r h fresh rest = tt
  range-SlotCleared range ranges ((key, block) ∷ blocks) r h fresh rest = (
    ClearedIf-or (is_touched range block) (is_changed ranges block) key entries
        (IsFresh-ClearedIf range key block r h.0 (is_changed all block) fresh.0) rest.0,
    range-SlotCleared range ranges blocks r h.1 fresh.1 rest.1,
  )

  ranges-SlotCleared :
      (ranges : List CodeRange) (blocks : List (ℕ × BasicBlock))
      → All IsRange ranges
      → All FitsBlock blocks
      → All (λ (range : CodeRange). All (IsFresh range entries) (map (flushed all) blocks)) ranges
      → All (SlotCleared ranges entries) blocks
  unfolding is_changed
  ranges-SlotCleared [] blocks r h fresh = none_changed blocks
    where
      none_changed : (blocks : List (ℕ × BasicBlock)) → All (SlotCleared [] entries) blocks
      none_changed [] = tt
      none_changed (entry ∷ blocks) = (tt, none_changed blocks)
  ranges-SlotCleared (range ∷ ranges) blocks r h fresh =
      range-SlotCleared range ranges blocks r.0 h fresh.0
        (ranges-SlotCleared ranges blocks r.1 h fresh.1)

-- A flush returns with no dirty range left. It invalidates the blocks with a byte of their code in a
-- range that was dirty and leaves all other blocks as they are, and the addresses of the blocks that
-- it invalidated have no native entry. The dirty ranges have a byte and end below 2^64, and the
-- blocks have an instruction and end below 2^32.
pub flush_instruction_cache_lem :
    (c : Context)
    → All IsRange c.memory.dirty_code_ranges
    → All FitsBlock c.block_cache.blocks
    → (d : Context) × (flush_instruction_cache c ≡ returned tt d)
      × (d.memory.dirty_code_ranges ≡ [])
      × (d.block_cache.blocks ≡ map (flushed c.memory.dirty_code_ranges) c.block_cache.blocks)
      × All (SlotCleared c.memory.dirty_code_ranges d.block_cache.jit_entries) c.block_cache.blocks
unfolding flush_instruction_cache take_dirty_code_ranges
flush_instruction_cache_lem c r h =
    let ranges : List CodeRange = c.memory.dirty_code_ranges in
    let after : BlockCache = invalidate_ranges ranges c.block_cache in
    let changed = invalidate_ranges-flushed ranges c.block_cache r h in
    (
      record c { memory = record (c.memory) { dirty_code_ranges = [] }; block_cache = after },
      refl,
      refl,
      changed,
      ranges-SlotCleared after.jit_entries ranges ranges c.block_cache.blocks r h (
          subst
            (λ (blocks : List (ℕ × BasicBlock)).
              All (λ (range : CodeRange). All (IsFresh range after.jit_entries) blocks) ranges)
            changed (invalidate_ranges-IsFreshCache ranges c.block_cache)),
    )
