-- ===== src/Text/Utf8.antt =====
-- A text whose bytes all pass a test for ASCII bytes has one byte for each `char`.
use rustmote.Prelude.{
  ℕ, ◌+◌, ◌/◌, ◌<◌, ◌≡◌, ◌∙◌, ◌&&◌, refl, Bool, true, List, [], ◌∷◌, ◌++◌, arith, length, all,
  length-append,
}
use rustmote.Text.{Text, encode_utf8, bytes, byte_len}

-- The test is passed by ASCII bytes only.
abbrev pub IsAsciiTest : (ℕ → Bool) → Type 0
IsAsciiTest p = (b : ℕ) → p b ≡ true → b < 128

all-append : (p : ℕ → Bool) (xs ys : List ℕ) → all p (xs ++ ys) ≡ (all p xs && all p ys)
all-append p [] ys = refl
all-append p (x ∷ xs) ys = ground (arith, all-append p xs ys)

module _ (p : ℕ → Bool) (ascii : IsAsciiTest p) where
  all-encode_utf8 : (c : ℕ) → all p (encode_utf8 c) ≡ p c
  unfolding encode_utf8
  all-encode_utf8 c =
      ground
        (arith, ascii c, ascii (0xC0 + c / 64), ascii (0xE0 + c / 4096), ascii (0xF0 + c / 262144))

  test_of_encode : (c : ℕ) → p c ≡ true → encode_utf8 c ≡ c ∷ []
  unfolding encode_utf8
  test_of_encode c h = ground (arith, ascii c)

  pub all-bytes : (s : Text) → all p (bytes s) ≡ all p s
  unfolding bytes
  all-bytes [] = refl
  all-bytes (c ∷ s) = all-append p (encode_utf8 c) (bytes s) ∙ cc (all-encode_utf8 c, all-bytes s)

  pub byte_len_of_all : (s : Text) → all p s ≡ true → byte_len s ≡ length s
  unfolding byte_len bytes
  byte_len_of_all [] h = refl
  byte_len_of_all (c ∷ s) h =
      ground (arith, test_of_encode c, byte_len_of_all s, length-append (encode_utf8 c) (bytes s))

  pub bytes_of_all : (s : Text) → all p s ≡ true → bytes s ≡ s
  unfolding bytes
  bytes_of_all [] h = refl
  bytes_of_all (c ∷ s) h = ground (arith, test_of_encode c, bytes_of_all s)
