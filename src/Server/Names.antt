-- ===== src/Server/Names.antt =====
-- Which server names are accepted.
use rustmote.Prelude.{◌≤◌, ◌≡◌, ◌↔◌, refl, true, false, arith, length, all, Bool-cases, inl, inr}
use rustmote.Text.{Text}
use rustmote.Text.Utf8.{IsAsciiTest, all-bytes, byte_len_of_all}
use rustmote.Text.Split.{contains, contains-false_of_all}
use rustmote.Error.{ok}
use rustmote.Server.{is_name_byte, validate_name}

is_name_byte_ascii : IsAsciiTest is_name_byte
is_name_byte_ascii b h = ground arith

-- Rules of `^[a-zA-Z0-9_-]{1,64}$`, over the characters of the name.
pub record IsServerName (name : Text) : Type 0 where
  pub nonempty : 1 ≤ length name
  pub short : length name ≤ 64
  pub allowed : all is_name_byte name ≡ true

-- A name is accepted exactly when it has 1 to 64 characters, each an ASCII letter, a digit, `_` or
-- `-`, although the code counts and tests the bytes of its encoding.
pub validate_name_iff : (name : Text) → (validate_name name ≡ ok tt) ↔ IsServerName name
unfolding validate_name
validate_name_iff name = elim (Bool-cases (all is_name_byte name)) [
  | inl e ↦ ground (
    arith,
    all-bytes is_name_byte is_name_byte_ascii name,
    byte_len_of_all is_name_byte is_name_byte_ascii name e,
  )
  | inr e ↦ ground (arith, all-bytes is_name_byte is_name_byte_ascii name)
]

-- A name that is accepted has no colon.
pub no_colon_of_validate_name :
    (name : Text) → validate_name name ≡ ok tt → contains name b':' ≡ false
no_colon_of_validate_name name h =
    contains-false_of_all is_name_byte name b':' refl ((validate_name_iff name).0 h).allowed
