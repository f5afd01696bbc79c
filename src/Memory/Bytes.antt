-- ===== src/Memory/Bytes.antt =====
-- The byte copies of include/toy/memory.hpp, index by index, and the bytes of a word.
use native.Mathlib.Nat.{pow-suc}
use toy_isa_v1_5_interpreter.Base.{
  ℕ, zero, suc, ◌+◌, ◌^◌, ◌≤◌, ◌<◌, ◌≡◌, refl, ap, ap₂, ◌∙◌, arith, ◌⊎◌, inl, List, [], ◌∷◌, All,
  All-get_or, All-set, length, get_or, set, length-set, get_or-set_self, get_or-set_ne,
}
use toy_isa_v1_5_interpreter.BitUtils.{decode_little_endian_word, encode_little_endian_word}
use toy_isa_v1_5_interpreter.Memory.{load_bytes, store_bytes}

pub length-store_bytes :
    (bytes : List ℕ) (a : ℕ) (new : List ℕ) → length (store_bytes bytes a new) ≡ length bytes
unfolding store_bytes
length-store_bytes bytes a [] = refl
length-store_bytes bytes a (b ∷ rest) =
    length-store_bytes (set bytes a b) (a + 1) rest ∙ length-set bytes a b

pub length-load_bytes : (bytes : List ℕ) (a n : ℕ) → length (load_bytes bytes a n) ≡ n
unfolding load_bytes
length-load_bytes bytes a zero = refl
length-load_bytes bytes a (suc n) = ap suc (length-load_bytes bytes (a + 1) n)

-- A copy leaves what lies before and behind it.
pub get_or-store_bytes_outside :
    (bytes : List ℕ) (a : ℕ) (new : List ℕ) (j : ℕ)
    → (j < a) ⊎ (a + length new ≤ j)
    → get_or (store_bytes bytes a new) j 0 ≡ get_or bytes j 0
unfolding store_bytes
get_or-store_bytes_outside bytes a [] j h = refl
get_or-store_bytes_outside bytes a (b ∷ rest) j h =
    get_or-store_bytes_outside (set bytes a b) (a + 1) rest j (omega arith)
    ∙ get_or-set_ne bytes a j b 0 (omega arith)

pub get_or-store_bytes_inside :
    (bytes : List ℕ) (a : ℕ) (new : List ℕ) (i : ℕ)
    → i < length new
    → a + length new ≤ length bytes
    → get_or (store_bytes bytes a new) (a + i) 0 ≡ get_or new i 0
unfolding store_bytes
get_or-store_bytes_inside bytes a [] i h fits = absurd (omega arith)
get_or-store_bytes_inside bytes a (b ∷ rest) zero h fits =
    let e : a + 0 ≡ a = omega arith in
    rw e (
      get_or-store_bytes_outside (set bytes a b) (a + 1) rest a (inl (omega arith))
      ∙ get_or-set_self bytes a b 0 (omega arith))
get_or-store_bytes_inside bytes a (b ∷ rest) (suc i) h fits =
    let e : a + suc i ≡ a + 1 + i = omega arith in
    rw e (
      get_or-store_bytes_inside (set bytes a b) (a + 1) rest i (omega arith)
        (omega (arith, length-set bytes a b)))

-- Equal bytes load equally.
pub load_bytes-ext :
    (n : ℕ) (xs ys : List ℕ) (a : ℕ)
    → ((j : ℕ) → a ≤ j → j < a + n → get_or xs j 0 ≡ get_or ys j 0)
    → load_bytes xs a n ≡ load_bytes ys a n
unfolding load_bytes
load_bytes-ext zero xs ys a h = refl
load_bytes-ext (suc n) xs ys a h =
    ap₂ ◌∷◌ (h a (omega arith) (omega arith))
      (load_bytes-ext n xs ys (a + 1) (λ j p q. h j (omega arith) (omega arith)))

pub load_bytes-store_bytes :
    (bytes : List ℕ) (a : ℕ) (new : List ℕ)
    → a + length new ≤ length bytes
    → load_bytes (store_bytes bytes a new) a (length new) ≡ new
unfolding load_bytes store_bytes
load_bytes-store_bytes bytes a [] h = refl
load_bytes-store_bytes bytes a (b ∷ rest) h =
    ap₂ ◌∷◌
      (get_or-store_bytes_outside (set bytes a b) (a + 1) rest a (inl (omega arith))
        ∙ get_or-set_self bytes a b 0 (omega arith))
      (load_bytes-store_bytes (set bytes a b) (a + 1) rest (omega (arith, length-set bytes a b)))

module _ (P : ℕ → Type 0) where
  pub All-store_bytes :
      (bytes : List ℕ) (a : ℕ) (new : List ℕ)
      → All P bytes
      → All P new
      → All P (store_bytes bytes a new)
  unfolding store_bytes
  All-store_bytes bytes a [] h k = h
  All-store_bytes bytes a (b ∷ rest) h k =
      All-store_bytes (set bytes a b) (a + 1) rest (All-set P bytes a b h k.0) k.1

  pub All-load_bytes : (bytes : List ℕ) (a n : ℕ) → P 0 → All P bytes → All P (load_bytes bytes a n)
  unfolding load_bytes
  All-load_bytes bytes a zero p h = tt
  All-load_bytes bytes a (suc n) p h =
      (All-get_or P bytes a 0 h p, All-load_bytes bytes (a + 1) n p h)

pub decode-encode_little_endian_word :
    (value : ℕ)
    → value < 2 ^ 32
    → decode_little_endian_word (encode_little_endian_word value) ≡ value
unfolding decode_little_endian_word encode_little_endian_word
decode-encode_little_endian_word value h = omega arith

pub encode-decode_little_endian_word :
    (b0 b1 b2 b3 : ℕ)
    → b0 < 256
    → b1 < 256
    → b2 < 256
    → b3 < 256
    → let bytes = b0 ∷ b1 ∷ b2 ∷ b3 ∷ [] in
      encode_little_endian_word (decode_little_endian_word bytes) ≡ bytes
unfolding decode_little_endian_word encode_little_endian_word
encode-decode_little_endian_word b0 b1 b2 b3 h0 h1 h2 h3 = ground arith

-- A word of `n` bytes.
pub decode_little_endian_word-lt :
    (bytes : List ℕ)
    → All (λ b. b < 256) bytes
    → decode_little_endian_word bytes < 256 ^ length bytes
unfolding decode_little_endian_word
decode_little_endian_word-lt [] h = omega arith
decode_little_endian_word-lt (b ∷ bytes) h =
    grind (arith, decode_little_endian_word-lt bytes h.1, pow-suc 256 (length bytes))

pub encode_little_endian_word-bytes :
    (value : ℕ) → All (λ b. b < 256) (encode_little_endian_word value)
unfolding encode_little_endian_word
encode_little_endian_word-bytes value = omega arith
