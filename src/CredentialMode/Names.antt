-- ===== src/CredentialMode/Names.antt =====
-- The names of the modes and their parser agree.
use rustmote.Prelude.{◌≡◌, ◌↔◌, some, arith}
use rustmote.Text.{Text, str, text_eq, trim, to_ascii_lowercase}
use rustmote.Text.Laws.{text_eq_iff}
use rustmote.CredentialMode.{CredentialMode, prompt, keychain, unsafe, as_str, match_mode, from_str}

match_mode_iff : (t : Text) (m : CredentialMode) → (match_mode t ≡ some m) ↔ (t ≡ as_str m)
unfolding match_mode as_str text_eq
match_mode_iff t prompt = ground (
  arith,
  text_eq_iff t (str "prompt"),
  text_eq_iff t (str "keychain"),
  text_eq_iff t (str "unsafe"),
)
match_mode_iff t keychain = ground (
  arith,
  text_eq_iff t (str "prompt"),
  text_eq_iff t (str "keychain"),
  text_eq_iff t (str "unsafe"),
)
match_mode_iff t unsafe = ground (
  arith,
  text_eq_iff t (str "prompt"),
  text_eq_iff t (str "keychain"),
  text_eq_iff t (str "unsafe"),
)

-- A text is read as the mode `m` exactly when it is the name of `m`, up to the case of ASCII
-- letters and white space at both ends.
from_str_iff :
    (s : Text) (m : CredentialMode)
    → (from_str s ≡ some m) ↔ (to_ascii_lowercase (trim s) ≡ as_str m)
unfolding from_str
from_str_iff s m = match_mode_iff (to_ascii_lowercase (trim s)) m
