-- ===== src/Credentials/Insecure.antt =====
-- A credentials file that others may read.
use rustmote.Prelude.{◌≡◌, ◌≢◌, ℕ, ◌%◌, inr, false, ◌==◌, arith}
use rustmote.Text.{Text}
use rustmote.Error.{err, insecure_credentials_file}
use rustmote.Effect.{>>=-err}
use rustmote.Credentials.{
  Vault, unsafe_store, check_unsafe_permissions, read_unsafe_file, get_password, set_password,
  delete_password,
}

module _ (V : Vault) where
  open V use {World}

  check_insecure :
      (path : Text) (mode : ℕ) (w w' : World)
      → V.metadata path w ≡ (inr mode, w')
      → mode % 512 ≢ 384
      → check_unsafe_permissions V path w ≡ (err (insecure_credentials_file (mode % 512)), w')
  unfolding check_unsafe_permissions
  check_insecure path mode w w' looked open_to_others =
      let differs : (mode % 512 == 384) ≡ false = ground arith in
      rw (check_unsafe_permissions, looked, differs, looked)

  -- While the permissions of the file are other than 0600, reading, setting and deleting a password
  -- all fail with the permissions that were found, right after looking at them: the file is not
  -- read and not written.
  pub insecure_refused :
      (path server user password : Text) (mode : ℕ) (w w' : World)
      → V.metadata path w ≡ (inr mode, w')
      → mode % 512 ≢ 384
      → (get_password V (unsafe_store path) server user w
          ≡ (err (insecure_credentials_file (mode % 512)), w'))
        × (set_password V (unsafe_store path) server user password w
            ≡ (err (insecure_credentials_file (mode % 512)), w'))
        × (delete_password V (unsafe_store path) server user w
            ≡ (err (insecure_credentials_file (mode % 512)), w'))
  unfolding get_password set_password delete_password read_unsafe_file
  insecure_refused path server user password mode w w' looked open_to_others =
      let refused : read_unsafe_file V path w ≡ (err (insecure_credentials_file (mode % 512)), w') =
        >>=-err _ _ (check_insecure path mode w w' looked open_to_others) in
      (>>=-err _ _ refused, >>=-err _ _ refused, >>=-err _ _ refused)
