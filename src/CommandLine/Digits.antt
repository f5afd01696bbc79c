-- ===== src/CommandLine/Digits.antt =====
-- `std::stoull`, as src/main.cpp calls it, on a text with digits.
use native.Mathlib.Nat.{pow-suc, add-mul, mul_assoc}
use toy_isa_v1_5_interpreter.Base.{
  ℕ, ◌+◌, ◌-◌, ◌*◌, ◌^◌, ◌≡◌, refl, arith, ap, ◌∙◌, true, false, List, [], ◌∷◌, ◌++◌, All, length,
  length-append, leb, ◌==◌, if◌then◌else◌,
}
use toy_isa_v1_5_interpreter.CommandLine.Stoull.{
  number, out_of_range, is_space, is_digit, skip_spaces, read_digits, starts_with_digit,
  read_number, read_signed, stoull,
}

abbrev pub IsDigit : ℕ → Type 0
IsDigit c = is_digit c ≡ true

abbrev pub IsSpace : ℕ → Type 0
IsSpace c = is_space c ≡ true

-- The number that digits write.
abbrev pub decimal : List ℕ → ℕ
decimal [] = 0
decimal (c ∷ digits) = (c - b'0') * 10 ^ length digits + decimal digits

read_digits_lem :
    (digits rest : List ℕ) (value : ℕ)
    → All IsDigit digits
    → starts_with_digit rest ≡ false
    → read_digits value (digits ++ rest) ≡ (value * 10 ^ length digits + decimal digits, rest)
unfolding read_digits
read_digits_lem [] [] value h k = ap (λ (v : ℕ). (v, [])) (omega arith)
read_digits_lem [] (c ∷ rest) value h k = rw k (ap (λ (v : ℕ). (v, c ∷ rest)) (omega arith))
read_digits_lem (c ∷ digits) rest value h k = rw h.0 (
    read_digits_lem digits rest (value * 10 + (c - b'0')) h.1 k
    ∙ ap (λ (v : ℕ). (v, rest))
        (omega (
          arith,
          add-mul (value * 10) (c - b'0') (10 ^ length digits),
          mul_assoc value 10 (10 ^ length digits),
          ap (λ (p : ℕ). value * p) (pow-suc 10 (length digits)),
        )))

-- A text that does not begin with a space.
skip_spaces_lem :
    (spaces text : List ℕ) (c : ℕ)
    → All IsSpace spaces
    → is_space c ≡ false
    → skip_spaces (spaces ++ (c ∷ text)) ≡ c ∷ text
skip_spaces_lem [] text c h k = rw k refl
skip_spaces_lem (s ∷ spaces) text c h k = rw h.0 (skip_spaces_lem spaces text c h.1 k)

read_number_of :
    (whole text rest : List ℕ) (value : ℕ)
    → starts_with_digit text ≡ true
    → read_digits 0 text ≡ (value, rest)
    → read_number false whole text
      ≡ (if leb (2 ^ 64) value then out_of_range else number value (length whole - length rest))
unfolding read_number
read_number_of whole text rest value h e = rw (h, e) refl

module _ (whole : List ℕ) (c : ℕ) (digits rest : List ℕ) where
  read_signed-digits :
      IsDigit c
      → read_signed whole (c ∷ (digits ++ rest)) ≡ read_number false whole (c ∷ (digits ++ rest))
  unfolding read_signed
  read_signed-digits h =
      let no_plus : (c == b'+') ≡ false = ground arith in
      let no_minus : (c == b'-') ≡ false = ground arith in rw (no_plus, no_minus) refl

  read_number-digits :
      All IsDigit (c ∷ digits)
      → starts_with_digit rest ≡ false
      → read_number false whole (c ∷ (digits ++ rest)) ≡ (
          if leb (2 ^ 64) (decimal (c ∷ digits))
          then out_of_range
          else number (decimal (c ∷ digits)) (length whole - length rest))
  read_number-digits h k =
      read_number_of whole (c ∷ (digits ++ rest)) rest (decimal (c ∷ digits)) h.0
        (read_digits_lem (c ∷ digits) rest 0 h k ∙ ap (λ (v : ℕ). (v, rest)) (omega arith))

-- Spaces and digits, with no digit behind them, are read as the number that the digits write, up to
-- the end of the digits, if it is below 2^64; otherwise it is out of range.
pub stoull_lem :
    (spaces : List ℕ) (c : ℕ) (digits rest : List ℕ)
    → All IsSpace spaces
    → All IsDigit (c ∷ digits)
    → starts_with_digit rest ≡ false
    → stoull (spaces ++ (c ∷ (digits ++ rest))) ≡ (
        if leb (2 ^ 64) (decimal (c ∷ digits))
        then out_of_range
        else number (decimal (c ∷ digits)) (length spaces + length (c ∷ digits)))
unfolding stoull
stoull_lem spaces c digits rest blank h k =
    let whole : List ℕ = spaces ++ (c ∷ (digits ++ rest)) in
    let text : is_space c ≡ false = ground (arith, h.0) in
    let read : length whole - length rest ≡ length spaces + length (c ∷ digits) =
      omega (arith, length-append spaces (c ∷ (digits ++ rest)), length-append digits rest) in
    rw (skip_spaces_lem spaces (digits ++ rest) c blank text) (
      read_signed-digits whole c digits rest h.0
      ∙ read_number-digits whole c digits rest h k
      ∙ rw read refl)
