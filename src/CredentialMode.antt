-- ===== src/CredentialMode.antt =====
-- crates/rustmote-core/src/credentials.rs, `CredentialMode` with its names and its parser.
pub mod Names
use rustmote.Prelude.{Bool, true, false, Option, none, some, if◌then◌else◌}
use rustmote.Text.{Text, str, text_eq, trim, to_ascii_lowercase}

pub data CredentialMode : Type 0 where
  prompt keychain unsafe : CredentialMode

-- `as_str`, and `Display`.
unfoldable pub as_str : CredentialMode → Text
as_str prompt = str "prompt"
as_str keychain = str "keychain"
as_str unsafe = str "unsafe"

-- The derived `==`.
unfoldable pub mode_eq : CredentialMode → CredentialMode → Bool
mode_eq prompt prompt = true
mode_eq keychain keychain = true
mode_eq unsafe unsafe = true
mode_eq _ _ = false

-- `FromStr`; `none` is `UnknownCredentialMode`.
match_mode : Text → Option CredentialMode
match_mode s =
    if text_eq s (str "prompt")
    then some prompt
    else if text_eq s (str "keychain")
    then some keychain
    else if text_eq s (str "unsafe")
    then some unsafe
    else none

unfoldable pub from_str : Text → Option CredentialMode
unfolding match_mode
from_str s = match_mode (to_ascii_lowercase (trim s))
