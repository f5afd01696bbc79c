-- ===== src/CommandLine/Stoull.antt =====
-- `std::stoull` on base 10, which src/main.cpp calls: the rules of `strtoull` in the C++ standard.
-- A text is the list of its bytes.
use toy_isa_v1_5_interpreter.Base.{
  ℕ, ◌+◌, ◌-◌, ◌*◌, ◌%◌, ◌^◌, Bool, true, false, ◌&&◌, ◌||◌, List, [], ◌∷◌, length, leb, ◌==◌,
  if◌then◌else◌,
}

-- The value and the number of characters that were read, or the exceptions.
pub data Number : Type 0 where
  invalid_argument : Number
  out_of_range : Number
  number : ℕ → ℕ → Number

abbrev pub is_space : ℕ → Bool
is_space c = c == 32 || leb 9 c && leb c 13

abbrev pub is_digit : ℕ → Bool
is_digit c = leb b'0' c && leb c b'9'

abbrev pub skip_spaces : List ℕ → List ℕ
skip_spaces [] = []
skip_spaces (c ∷ text) = let rest = skip_spaces text in if is_space c then rest else c ∷ text

-- The digits at the front, behind digits of the value `value`: the value and what is left.
unfoldable pub read_digits : ℕ → List ℕ → ℕ × List ℕ
read_digits value [] = (value, [])
read_digits value (c ∷ text) =
    let more = read_digits (value * 10 + (c - b'0')) text in
    if is_digit c then more else (value, c ∷ text)

abbrev pub starts_with_digit : List ℕ → Bool
starts_with_digit [] = false
starts_with_digit (c ∷ text) = is_digit c

-- A negative number is taken from 2^64.
abbrev pub signed_value : Bool → ℕ → ℕ
signed_value negative value = if negative then (2 ^ 64 - value) % 2 ^ 64 else value

-- Behind the spaces and the sign.
unfoldable pub read_number : Bool → List ℕ → List ℕ → Number
unfolding read_digits
read_number negative whole text =
    let (value, rest) = read_digits 0 text in
    if starts_with_digit text
    then (if leb (2 ^ 64) value
        then out_of_range
        else number (signed_value negative value) (length whole - length rest))
    else invalid_argument

unfoldable pub read_signed : List ℕ → List ℕ → Number
unfolding read_number
read_signed whole [] = invalid_argument
read_signed whole (c ∷ text) =
    let plus = read_number false whole text in
    let minus = read_number true whole text in
    let plain = read_number false whole (c ∷ text) in
    if c == b'+' then plus else if c == b'-' then minus else plain

unfoldable pub stoull : List ℕ → Number
unfolding read_signed
stoull text = read_signed text (skip_spaces text)
