-- ===== src/Text.antt =====
-- The operations of Rust's `str`, `String` and `char` that the program uses (standard library).
-- A text is the list of its `char`s, each given by its Unicode scalar value.
pub mod Laws
pub mod Split
pub mod Decimal
pub mod Utf8
use Prim.Native.Char.{code}
use mathlib.Core.Bool.{cond}
use rustmote.Prelude.{
  ℕ, zero, suc, String, ◌+◌, ◌-◌, ◌*◌, ◌/◌, ◌%◌, ◌^◌, Bool, true, false, not, ◌&&◌, ◌||◌, Option,
  none, some, List, [], ◌∷◌, ◌++◌, reverse, leb, ltb, ◌==◌, if◌then◌else◌, length, all, any,
}

abbrev pub Text : Type 0
Text = List ℕ

-- A literal of the source.
abbrev pub str : String → Text
str String.[] = []
str (String.◌∷◌ c s) = code c ∷ str s

unfoldable pub text_eq : Text → Text → Bool
text_eq [] [] = true
text_eq [] (d ∷ t) = false
text_eq (c ∷ s) [] = false
text_eq (c ∷ s) (d ∷ t) = c == d && text_eq s t

-- `char::is_ascii_digit` and its fellows; those of `u8` are the same tests.
abbrev pub is_ascii_digit : ℕ → Bool
is_ascii_digit c = leb b'0' c && leb c b'9'

abbrev pub is_ascii_lowercase : ℕ → Bool
is_ascii_lowercase c = leb b'a' c && leb c b'z'

abbrev pub is_ascii_uppercase : ℕ → Bool
is_ascii_uppercase c = leb b'A' c && leb c b'Z'

abbrev pub is_ascii_alphanumeric : ℕ → Bool
is_ascii_alphanumeric c = is_ascii_digit c || is_ascii_lowercase c || is_ascii_uppercase c

abbrev pub is_ascii_hexdigit : ℕ → Bool
is_ascii_hexdigit c = is_ascii_digit c || leb b'a' c && leb c b'f' || leb b'A' c && leb c b'F'

-- `char::encode_utf8`.
unfoldable pub encode_utf8 : ℕ → List ℕ
encode_utf8 c =
    if ltb c 0x80
    then c ∷ []
    else if ltb c 0x800
    then (0xC0 + c / 64) ∷ (0x80 + c % 64) ∷ []
    else if ltb c 0x10000
    then (0xE0 + c / 4096) ∷ (0x80 + c / 64 % 64) ∷ (0x80 + c % 64) ∷ []
    else (0xF0 + c / 262144) ∷ (0x80 + c / 4096 % 64) ∷ (0x80 + c / 64 % 64) ∷ (0x80 + c % 64) ∷ []

-- `str::bytes` and `str::len`, which counts bytes.
unfoldable pub bytes : Text → List ℕ
bytes [] = []
bytes (c ∷ s) = encode_utf8 c ++ bytes s

unfoldable pub byte_len : Text → ℕ
unfolding bytes encode_utf8
byte_len s = length (bytes s)

unfoldable pub starts_with : Text → Text → Bool
starts_with s [] = true
starts_with [] (d ∷ t) = false
starts_with (c ∷ s) (d ∷ t) = c == d && starts_with s t

unfoldable pub strip_prefix : Text → Text → Option Text
strip_prefix s [] = some s
strip_prefix [] (d ∷ t) = none
strip_prefix (c ∷ s) (d ∷ t) = if c == d then strip_prefix s t else none

abbrev pub push_first : ℕ → List Text → List Text
push_first c [] = (c ∷ []) ∷ []
push_first c (part ∷ parts) = (c ∷ part) ∷ parts

-- `str::split` at a `char`: never empty.
unfoldable pub split : Text → ℕ → List Text
split [] sep = [] ∷ []
split (c ∷ s) sep = let rest = split s sep in if c == sep then [] ∷ rest else push_first c rest

-- `str::split_once` at a `char`.
unfoldable pub split_once : Text → ℕ → Option (Text × Text)
split_once [] sep = none
split_once (c ∷ s) sep =
    if c == sep
    then some ([], s)
    else elim (split_once s sep) [ none ↦ none | some (a, b) ↦ some (c ∷ a, b) ]

-- `trim_start_matches`, `trim_end_matches` and `trim_matches`, at the `char`s of a test.
unfoldable pub trim_start_matches : (ℕ → Bool) → Text → Text
trim_start_matches p [] = []
trim_start_matches p (c ∷ s) = if p c then trim_start_matches p s else c ∷ s

-- A character before what is left of the text behind it.
abbrev pub keep_end : (ℕ → Bool) → ℕ → Text → Text
keep_end p c [] = if p c then [] else c ∷ []
keep_end p c (d ∷ t) = c ∷ d ∷ t

unfoldable pub trim_end_matches : (ℕ → Bool) → Text → Text
trim_end_matches p [] = []
trim_end_matches p (c ∷ s) = keep_end p c (trim_end_matches p s)

-- `char::is_whitespace`: the code points of the Unicode property White_Space.
abbrev pub is_whitespace : ℕ → Bool
is_whitespace c =
    leb 9 c && leb c 13
    || c == 32
    || c == 0x85
    || c == 0xA0
    || c == 0x1680
    || leb 0x2000 c && leb c 0x200A
    || c == 0x2028
    || c == 0x2029
    || c == 0x202F
    || c == 0x205F
    || c == 0x3000

-- `str::trim`.
unfoldable pub trim : Text → Text
unfolding trim_start_matches trim_end_matches
trim s = trim_end_matches is_whitespace (trim_start_matches is_whitespace s)

-- `str::to_ascii_lowercase`.
unfoldable pub to_ascii_lowercase : Text → Text
to_ascii_lowercase [] = []
to_ascii_lowercase (c ∷ s) = (if is_ascii_uppercase c then c + 32 else c) ∷ to_ascii_lowercase s

-- The parts of `split` at white space that are not empty: `str::split_whitespace`.
abbrev keep_word : Text → List Text → List Text
keep_word [] ws = ws
keep_word (c ∷ w) ws = (c ∷ w) ∷ ws

words_from : Text → Text → List Text
words_from word [] = keep_word (reverse word) []
words_from word (c ∷ s) =
    let closed = keep_word (reverse word) (words_from [] s) in
    let longer = words_from (c ∷ word) s in if is_whitespace c then closed else longer

unfoldable pub split_whitespace : Text → List Text
unfolding words_from
split_whitespace s = words_from [] s

-- A line without its end: `str::lines` drops one `\r` before the `\n`, and no last empty line.
abbrev chomp : Text → Text
chomp [] = []
chomp (c ∷ []) = if c == 13 then [] else c ∷ []
chomp (c ∷ d ∷ s) = c ∷ chomp (d ∷ s)

lines_of : List Text → List Text
lines_of [] = []
lines_of ([] ∷ []) = []
lines_of ((c ∷ s) ∷ []) = (c ∷ s) ∷ []
lines_of (s ∷ t ∷ rest) = chomp s ∷ lines_of (t ∷ rest)

unfoldable pub lines : Text → List Text
unfolding split lines_of
lines s = lines_of (split s 10)

-- `[&str]::join`.
unfoldable pub join : Text → List Text → Text
join sep [] = []
join sep (s ∷ []) = s
join sep (s ∷ t ∷ rest) = s ++ (sep ++ join sep (t ∷ rest))

-- `Display` of an unsigned number, in decimal. The fuel bounds the digits.
decimal_from : ℕ → ℕ → Text
decimal_from zero n = []
decimal_from (suc f) n =
    let more = decimal_from f (n / 10) ++ ((48 + n % 10) ∷ []) in
    if ltb n 10 then (48 + n) ∷ [] else more

unfoldable pub decimal : ℕ → Text
unfolding decimal_from
decimal n = decimal_from (suc n) n

-- `str::parse::<u64>`: an optional `+`, then at least one digit, and a value that fits.
digits_value : ℕ → Text → Option ℕ
digits_value acc [] = some acc
digits_value acc (c ∷ s) =
    let rest = digits_value (acc * 10 + (c - 48)) s in if is_ascii_digit c then rest else none

unfoldable pub parse_below : ℕ → Text → Option ℕ
unfolding digits_value
parse_below limit [] = none
parse_below limit (c ∷ s) = elim (digits_value 0 (c ∷ s)) [
  | some n ↦ (if ltb n limit then some n else none)
  | none ↦ none
]

abbrev pub strip_plus : Text → Text
strip_plus [] = []
strip_plus (c ∷ s) = if c == b'+' then s else c ∷ s

unfoldable pub parse_u64 : Text → Option ℕ
unfolding parse_below
parse_u64 s = parse_below (2 ^ 64) (strip_plus s)
