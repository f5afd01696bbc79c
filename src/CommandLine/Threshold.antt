-- ===== src/CommandLine/Threshold.antt =====
-- The value of `--jit-threshold` in src/main.cpp.
use toy_isa_v1_5_interpreter.Base.{
  ℕ, zero, suc, ◌+◌, ◌≡◌, refl, false, arith, Bool-cases, inl, inr, List, ◌∷◌, ◌++◌, All, length,
  length-append, if◌then◌else◌, leb, ◌==◌, ◌^◌,
}
use toy_isa_v1_5_interpreter.ExecutionContext.{Options}
use toy_isa_v1_5_interpreter.CommandLine.{parsed, refused, ParseError, parse_threshold, parse_whole}
use toy_isa_v1_5_interpreter.CommandLine.Stoull.{starts_with_digit}
use toy_isa_v1_5_interpreter.CommandLine.Digits.{IsSpace, IsDigit, decimal, stoull_lem}

behind : (m n : ℕ) → (m == m + n) ≡ (n == 0)
behind m zero = ground arith
behind m (suc n) = ground arith

-- A threshold that is written as spaces, digits and a rest that starts with no digit is refused as
-- out of range from 2^64 on; below, it is the number of the digits if the rest is empty, and is
-- refused as an invalid threshold otherwise.
pub parse_threshold_lem :
    (spaces : List ℕ) (c : ℕ) (digits rest : List ℕ) (options : Options)
    → All IsSpace spaces
    → All IsDigit (c ∷ digits)
    → starts_with_digit rest ≡ false
    → parse_threshold (spaces ++ (c ∷ (digits ++ rest))) options ≡ (
        if leb (2 ^ 64) (decimal (c ∷ digits))
        then refused ParseError.number_out_of_range
        else if length rest == 0
        then parsed (record options { jit_threshold = decimal (c ∷ digits) })
        else refused ParseError.invalid_jit_threshold)
unfolding parse_threshold parse_whole
parse_threshold_lem spaces c digits rest options blank h k =
    let whole : List ℕ = spaces ++ (c ∷ (digits ++ rest)) in
    let read : length whole ≡ length spaces + length (c ∷ digits) + length rest =
      omega (arith, length-append spaces (c ∷ (digits ++ rest)), length-append digits rest) in
    let ends : ((length spaces + length (c ∷ digits)) == length whole) ≡ (length rest == 0) =
      rw read (behind (length spaces + length (c ∷ digits)) (length rest)) in
    elim (Bool-cases (leb (2 ^ 64) (decimal (c ∷ digits)))) [
      | inl large ↦
          rw (stoull_lem spaces c digits rest blank h k, parse_threshold, parse_whole, large) refl
      | inr small ↦
          rw (stoull_lem spaces c digits rest blank h k, parse_threshold, parse_whole, small, ends)
            (elim (Bool-cases (length rest == 0)) [
              | inl whole ↦ rw whole refl
              | inr more ↦ rw more refl
            ])
    ]
