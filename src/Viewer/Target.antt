-- ===== src/Viewer/Target.antt =====
-- crates/rustmote-core/src/viewer.rs, `TargetId::new`: which ids are accepted.
use rustmote.Prelude.{◌≤◌, ◌≡◌, true, arith, length, all, Bool-cases, inl, inr}
use rustmote.Text.{Text, is_ascii_digit}
use rustmote.Text.Utf8.{IsAsciiTest, all-bytes, byte_len_of_all}
use rustmote.Error.{ok}
use rustmote.Viewer.{TargetId, new}

is_ascii_digit_ascii : IsAsciiTest is_ascii_digit
is_ascii_digit_ascii b h = ground arith

-- `^[0-9]{9,10}$`, over the characters.
pub record IsTargetId (raw : Text) : Type 0 where
  pub long : 9 ≤ length raw
  pub short : length raw ≤ 10
  pub digits : all is_ascii_digit raw ≡ true

-- An id that is made is the text itself, and an id.
pub new-IsTargetId :
    (raw : Text) (id : TargetId) → new raw ≡ ok id → (id.raw ≡ raw) × IsTargetId raw
unfolding new
new-IsTargetId raw id made = elim (Bool-cases (all is_ascii_digit raw)) [
  | inl e ↦ ground (
    arith,
    all-bytes is_ascii_digit is_ascii_digit_ascii raw,
    byte_len_of_all is_ascii_digit is_ascii_digit_ascii raw e,
  )
  | inr e ↦ ground (arith, all-bytes is_ascii_digit is_ascii_digit_ascii raw)
]
