-- ===== src/Credentials/Account.antt =====
-- Accounts of the keyring, which are the keys of the file too.
use rustmote.Prelude.{◌≡◌}
use rustmote.Text.{Text}
use rustmote.Text.Split.{separated_left}
use rustmote.Error.{ok}
use rustmote.Server.{validate_name}
use rustmote.Server.Names.{no_colon_of_validate_name}
use rustmote.Credentials.{keyring_account}

-- The accounts of accepted server names are the same only for the same server and the same user,
-- whatever the user's name, a colon in it included.
pub keyring_account_injective :
    (server server' user user' : Text)
    → validate_name server ≡ ok tt
    → validate_name server' ≡ ok tt
    → keyring_account server user ≡ keyring_account server' user'
    → (server ≡ server') × (user ≡ user')
unfolding keyring_account
keyring_account_injective server server' user user' valid valid' same =
    separated_left server server' user user' b':' (no_colon_of_validate_name server valid)
      (no_colon_of_validate_name server' valid') same
