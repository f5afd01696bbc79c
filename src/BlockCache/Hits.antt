-- ===== src/BlockCache/Hits.antt =====
-- `getBlock` of src/toy/basic_block_cache.cpp, asked twice for one address.
use toy_isa_v1_5_interpreter.Base.{
  ℕ, ◌≡◌, refl, true, false, Bool-cases, inl, inr, Option, none, some, List, [], ◌∷◌, ◌==◌, ==_iff,
  ==_refl, arith, sym, ◌∙◌, ap, subst,
}
use toy_isa_v1_5_interpreter.Checked.{Checked, ok, fail}
use toy_isa_v1_5_interpreter.Instruction.{Instruction}
use toy_isa_v1_5_interpreter.Machine.{BasicBlock, Context}
use toy_isa_v1_5_interpreter.Machine.Monad.{Outcome, returned}
use toy_isa_v1_5_interpreter.BlockCache.{
  find, erase, emplace, basic_block, with_blocks, decode_instructions, decode_fuel, decode_block,
  get_block,
}

some_differs : {A : Type 0} {a : A} → some a ≡ none → ⊥
some_differs e = absurd (cc)

module _ {V : Type 0} where
  -- A list of pairs stands for a map: no key occurs twice.
  abbrev pub IsMap : List (ℕ × V) → Type 0
  IsMap [] = Unit
  IsMap ((k, v) ∷ entries) = (find k entries ≡ none) × IsMap entries

  find-emplace_self :
      (key : ℕ) (v : V) (entries : List (ℕ × V))
      → find key entries ≡ none
      → find key (emplace key v entries) ≡ some v
  unfolding find emplace
  find-emplace_self key v [] h = rw (==_refl key) refl
  find-emplace_self key v ((k, w) ∷ entries) h = elim (Bool-cases (k == key)) [
    | inl hit ↦ absurd (some_differs (rw hit at h))
    | inr miss ↦ rw (miss, miss) (find-emplace_self key v entries (rw miss at h))
  ]

  find-emplace-none :
      (key other : ℕ) (v : V) (entries : List (ℕ × V))
      → (key == other) ≡ false
      → find other entries ≡ none
      → find other (emplace key v entries) ≡ none
  unfolding find emplace
  find-emplace-none key other v [] e h = rw e refl
  find-emplace-none key other v ((k, w) ∷ entries) e h = elim (Bool-cases (k == key)) [
    | inl hit ↦ rw hit h
    | inr miss ↦ elim (Bool-cases (k == other)) [
      | inl same ↦ absurd (some_differs (rw same at h))
      | inr differs ↦ rw (miss, differs) (find-emplace-none key other v entries e (rw differs at h))
    ]
  ]

  emplace-IsMap :
      (key : ℕ) (v : V) (entries : List (ℕ × V)) → IsMap entries → IsMap (emplace key v entries)
  unfolding emplace find
  emplace-IsMap key v [] h = (refl, tt)
  emplace-IsMap key v ((k, w) ∷ entries) h = elim (Bool-cases (k == key)) [
    | inl hit ↦ rw hit h
    | inr miss ↦
        rw miss
          (find-emplace-none key k v entries (ground arith) h.0, emplace-IsMap key v entries h.1)
  ]

  find-erase-none :
      (key other : ℕ) (entries : List (ℕ × V))
      → find other entries ≡ none
      → find other (erase key entries) ≡ none
  unfolding find erase
  find-erase-none key other [] h = h
  find-erase-none key other ((k, w) ∷ entries) h = elim (Bool-cases (k == other)) [
    | inl same ↦ absurd (some_differs (rw same at h))
    | inr differs ↦ elim (Bool-cases (k == key)) [
      | inl hit ↦ rw hit (rw differs at h)
      | inr miss ↦ rw (miss, differs) (find-erase-none key other entries (rw differs at h))
    ]
  ]

  erase-IsMap : (key : ℕ) (entries : List (ℕ × V)) → IsMap entries → IsMap (erase key entries)
  unfolding erase
  erase-IsMap key [] h = tt
  erase-IsMap key ((k, w) ∷ entries) h = elim (Bool-cases (k == key)) [
    | inl hit ↦ rw hit h.1
    | inr miss ↦ rw miss (find-erase-none key k entries h.0, erase-IsMap key entries h.1)
  ]

  find-erase_self :
      (key : ℕ) (entries : List (ℕ × V)) → IsMap entries → find key (erase key entries) ≡ none
  unfolding find erase
  find-erase_self key [] h = refl
  find-erase_self key ((k, w) ∷ entries) h = elim (Bool-cases (k == key)) [
    | inl hit ↦ rw hit (ap (λ (i : ℕ). find i entries) (sym ((==_iff k key).0 hit)) ∙ h.0)
    | inr miss ↦ rw (miss, miss) (find-erase_self key entries h.1)
  ]

-- A call that answers leaves the block in the cache, valid, and the next call answers the same and
-- changes nothing.
abbrev Repeats : ℕ → Outcome BasicBlock → Type 0
Repeats address (returned b d) =
    (find address d.block_cache.blocks ≡ some b)
    × (b.is_valid ≡ true)
    × (get_block address d ≡ returned b d)
    × IsMap d.block_cache.blocks
Repeats address _ = Unit

pub get_block-hit :
    (address : ℕ) (c : Context) (b : BasicBlock)
    → find address c.block_cache.blocks ≡ some b
    → b.is_valid ≡ true
    → get_block address c ≡ returned b c
unfolding get_block
get_block-hit address c b found valid = rw (found, get_block, valid) refl

decode_block-Repeats :
    (address : ℕ) (c : Context)
    → find address c.block_cache.blocks ≡ none
    → IsMap c.block_cache.blocks
    → Repeats address (decode_block address c)
unfolding decode_block
decode_block-Repeats address c absent keys =
    go (decode_instructions (decode_fuel c.memory) c.memory address) refl
  where
    go :
        (r : Option (Checked (List Instruction)))
        → decode_instructions (decode_fuel c.memory) c.memory address ≡ r
        → Repeats address (decode_block address c)
    go none e = rw (e, decode_block) tt
    go (some (fail x)) e = rw (e, decode_block) tt
    go (some (ok instructions)) e =
        let block = basic_block address instructions in
        let blocks = c.block_cache.blocks in
        rw (e, decode_block)
          (
            find-emplace_self address block blocks absent,
            refl,
            get_block-hit address (with_blocks (emplace address block blocks) c) block
                (find-emplace_self address block blocks absent) refl,
            emplace-IsMap address block blocks keys,
          )

get_block-Repeats :
    (address : ℕ) (c : Context) → IsMap c.block_cache.blocks → Repeats address (get_block address c)
unfolding get_block
get_block-Repeats address c keys = go (find address c.block_cache.blocks) refl
  where
    go :
        (r : Option BasicBlock)
        → find address c.block_cache.blocks ≡ r
        → Repeats address (get_block address c)
    go none e = rw (e, get_block) (decode_block-Repeats address c e keys)
    go (some block) e = elim (Bool-cases block.is_valid) [
      | inl valid ↦
          let hit = get_block-hit address c block e valid in
          subst (Repeats address) (sym hit) (e, valid, hit, keys)
      | inr stale ↦
          let blocks = c.block_cache.blocks in
          rw (e, get_block, stale)
            (decode_block-Repeats address (with_blocks (erase address blocks) c)
              (find-erase_self address blocks keys) (erase-IsMap address blocks keys))
    ]

-- When no start address occurs twice in the cache and `getBlock` answers with a block, decoded or
-- found, the cache then has that block at the address, it is valid, the same call on the context
-- that was left answers with it and changes nothing, and no start address occurs twice.
pub get_block-again :
    (address : ℕ) (c d : Context) (b : BasicBlock)
    → IsMap c.block_cache.blocks
    → get_block address c ≡ returned b d
    → (find address d.block_cache.blocks ≡ some b)
      × (b.is_valid ≡ true)
      × (get_block address d ≡ returned b d)
      × IsMap d.block_cache.blocks
get_block-again address c d b keys answers =
    subst (Repeats address) answers (get_block-Repeats address c keys)
