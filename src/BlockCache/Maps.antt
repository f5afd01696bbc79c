-- ===== src/BlockCache/Maps.antt =====
-- The maps of src/toy/basic_block_cache.cpp: what `find` gives after each change, and predicates on
-- the entries.
use toy_isa_v1_5_interpreter.Base.{
  ℕ, ◌≡◌, refl, ==_refl, arith, some, List, [], ◌∷◌, All, ◌==◌, ==_iff, Bool-cases, inl, inr, subst,
  sym,
}
use mathlib.Core.Option.{some-injective}
use toy_isa_v1_5_interpreter.BlockCache.{find, erase, emplace, assign}

-- What is assigned to a key that `emplace` has put there is found.
pub find-assign-emplace :
    {V : Type 0} (key : ℕ) (v w : V) (entries : List (ℕ × V))
    → find key (assign key v (emplace key w entries)) ≡ some v
unfolding find assign emplace
find-assign-emplace key v w [] = rw (==_refl key, ==_refl key) refl
find-assign-emplace key v w ((k, x) ∷ entries) = elim (Bool-cases (k == key)) [
  | inl hit ↦ rw (hit, hit, hit) refl
  | inr miss ↦ rw (miss, miss, miss) (find-assign-emplace key v w entries)
]

module _ {V : Type 0} (P : ℕ × V → Type 0) where
  pub All-find :
      (key : ℕ) (entries : List (ℕ × V)) {v : V}
      → All P entries
      → find key entries ≡ some v
      → P (key, v)
  unfolding find
  All-find key [] h e = absurd (cc)
  All-find key ((k, w) ∷ entries) h e = elim (Bool-cases (k == key)) [
    | inl hit ↦
        subst (λ (v' : V). P (key, v')) (some-injective w _ (ground arith))
          (subst (λ (k' : ℕ). P (k', w)) ((==_iff k key).0 hit) h.0)
    | inr miss ↦ All-find key entries h.1 (ground arith)
  ]

  pub All-erase : (key : ℕ) (entries : List (ℕ × V)) → All P entries → All P (erase key entries)
  unfolding erase
  All-erase key [] h = h
  All-erase key ((k, w) ∷ entries) h = elim (Bool-cases (k == key)) [
    | inl hit ↦ rw hit h.1
    | inr miss ↦ rw miss (h.0, All-erase key entries h.1)
  ]

  pub All-emplace :
      (key : ℕ) (v : V) (entries : List (ℕ × V))
      → All P entries
      → P (key, v)
      → All P (emplace key v entries)
  unfolding emplace
  All-emplace key v [] h p = (p, tt)
  All-emplace key v ((k, w) ∷ entries) h p = elim (Bool-cases (k == key)) [
    | inl hit ↦ rw hit h
    | inr miss ↦ rw miss (h.0, All-emplace key v entries h.1 p)
  ]

  pub All-assign :
      (key : ℕ) (v : V) (entries : List (ℕ × V))
      → All P entries
      → P (key, v)
      → All P (assign key v entries)
  unfolding assign
  All-assign key v [] h p = tt
  All-assign key v ((k, w) ∷ entries) h p = elim (Bool-cases (k == key)) [
    | inl hit ↦ rw hit (subst (λ (k' : ℕ). P (k', v)) (sym ((==_iff k key).0 hit)) p, h.1)
    | inr miss ↦ rw miss (h.0, All-assign key v entries h.1 p)
  ]
