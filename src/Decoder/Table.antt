-- ===== src/Decoder/Table.antt =====
-- The table of src/toy/decoder.cpp: whether the fixed bits of two rows conflict, and what that
-- means for the search of `decode`.
use mathlib.Core.Option.{some-injective}
use toy_isa_v1_5_interpreter.Base.{
  ℕ, zero, suc, ◌≡◌, refl, sym, subst, ap, ◌∙◌, arith, List, [], ◌∷◌, some, get_elem?, Bool, true,
  false, ◌&&◌, bit_and, ◌==◌, ==_iff, Bool-cases, inl, inr, if◌then◌else◌,
}
use toy_isa_v1_5_interpreter.Base.Bits.{bit_and_swap}
use toy_isa_v1_5_interpreter.Decoder.{DecodeInfo, decode_vector, decode_from, decode, with_handler}

-- The rows ask for different values of a bit that both fix.
abbrev conflict : DecodeInfo → DecodeInfo → Bool
conflict a b = if bit_and a.reference b.mask == bit_and b.reference a.mask then false else true

abbrev conflict_all : DecodeInfo → List DecodeInfo → Bool
conflict_all a [] = true
conflict_all a (b ∷ rows) = conflict a b && conflict_all a rows

abbrev conflicts : List DecodeInfo → Bool
conflicts [] = true
conflicts (a ∷ rows) = conflict_all a rows && conflicts rows

-- A word with the fixed bits of one row does not have those of the other.
conflict-miss :
    (w : ℕ) (a b : DecodeInfo)
    → conflict a b ≡ true
    → bit_and w b.mask ≡ b.reference
    → (bit_and w a.mask == a.reference) ≡ false
conflict-miss w a b h e = elim (Bool-cases (bit_and w a.mask == a.reference)) [
  | inr miss ↦ miss
  | inl hit ↦
      let same : bit_and a.reference b.mask ≡ bit_and b.reference a.mask =
        ap (λ (x : ℕ). bit_and x b.mask) (sym ((==_iff _ _).0 hit))
        ∙ bit_and_swap w a.mask b.mask
        ∙ ap (λ (x : ℕ). bit_and x a.mask) e in
      absurd (
        ground
          (arith, h, (==_iff (bit_and a.reference b.mask) (bit_and b.reference a.mask)).1 same))
]

module _ (w : ℕ) (info : DecodeInfo) (matches : bit_and w info.mask ≡ info.reference) where
  matches-at : (a : DecodeInfo) → a ≡ info → bit_and w a.mask ≡ a.reference
  matches-at a same = subst (λ (x : DecodeInfo). bit_and w x.mask ≡ x.reference) (sym same) matches

  conflict_all-miss :
      (a : DecodeInfo) (rows : List DecodeInfo) (i : ℕ)
      → conflict_all a rows ≡ true
      → get_elem? rows i ≡ some info
      → (bit_and w a.mask == a.reference) ≡ false
  conflict_all-miss a [] i h at = absurd (cc)
  conflict_all-miss a (b ∷ rows) zero h at =
      conflict-miss w a b (ground arith) (matches-at b (some-injective b info at))
  conflict_all-miss a (b ∷ rows) (suc i) h at = conflict_all-miss a rows i (ground arith) at

  decode_from-row :
      (rows : List DecodeInfo) (i : ℕ)
      → conflicts rows ≡ true
      → get_elem? rows i ≡ some info
      → decode_from rows w ≡ with_handler (info.handler w)
  unfolding decode_from
  decode_from-row [] i h at = absurd (cc)
  decode_from-row (a ∷ rows) zero h at =
      let same : a ≡ info = some-injective a info at in
      rw ((==_iff (bit_and w a.mask) a.reference).1 (matches-at a same))
        (ap (λ (x : DecodeInfo). with_handler (x.handler w)) same)
  decode_from-row (a ∷ rows) (suc i) h at =
      rw (conflict_all-miss a rows i (ground arith) at) (decode_from-row rows i (ground arith) at)

  -- A word with the fixed bits of any row of the table, wherever the row stands, is decoded by the
  -- function of this row.
  pub decode-row :
      (i : ℕ) → get_elem? decode_vector i ≡ some info → decode w ≡ with_handler (info.handler w)
  unfolding decode decode_vector
  decode-row i at = decode_from-row decode_vector i refl at
