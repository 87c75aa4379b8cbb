-- ===== src/Credentials.antt =====
-- crates/rustmote-core/src/credentials.rs: the three stores of passwords. The keyring crate, the
-- terminal, the file system and the toml crate are parameters. This is the code for Unix.
pub mod Account
pub mod Insecure
pub mod Kept
use rustmote.Prelude.{
  ℕ, ◌%◌, Bool, true, false, Option, none, some, ◌∷◌, ◌++◌, ◌==◌, if◌then◌else◌, [], ◌⊎◌, inl, inr,
}
use rustmote.Text.{Text, str, split_once}
use rustmote.Error.{
  RustmoteError, IoError, not_found, io, Result, ok, err, credential, config_parse,
  insecure_credentials_file, no_stored_credential,
}
use rustmote.Effect.{Io, pure, raise, lift, attempt, ◌>>=◌, ◌>>◌}
use rustmote.Dict
use rustmote.Dict.{Dict}
use rustmote.CredentialMode.{CredentialMode, prompt, keychain, unsafe}
use rustmote.Config.{Config}

-- What an entry of the keyring crate answers: `Error::NoEntry` or another error.
pub data EntryError : Type 0 where
  no_entry : EntryError
  other : Text → EntryError

pub record Vault : Type 1 where
  pub World : Type 0
  -- `Entry::new`, then `get_password`, `set_password` or `delete_credential`
  pub new_entry : (service account : Text) → World → Option Text × World
  pub get_entry : (service account : Text) → World → (EntryError ⊎ Text) × World
  pub set_entry : (service account password : Text) → World → Option Text × World
  pub delete_entry : (service account : Text) → World → Option EntryError × World
  -- `rpassword::prompt_password`
  pub prompt_password : (msg : Text) → Io World Text
  -- the permissions of `std::fs::metadata`, `read_to_string`, and the directory of a path made
  pub metadata : (path : Text) → World → (IoError ⊎ ℕ) × World
  pub read_to_string : (path : Text) → World → (IoError ⊎ Text) × World
  pub parent : Text → Option Text
  pub create_dir_all : (path : Text) → Io World (Unit {0})
  -- `open` to write, created with a mode or truncated, `write_all` and `sync_all`
  pub open_truncated : (path : Text) (mode : ℕ) → Io World (Unit {0})
  pub write_all : (path content : Text) → Io World (Unit {0})
  pub sync_all : (path : Text) → Io World (Unit {0})
  -- `toml::from_str`, its error as a text, and `to_string_pretty`
  pub from_toml : Text → Text ⊎ Dict Text
  pub to_toml : Dict Text → Result Text
  -- `credentials_path`
  pub credentials_path : Result Text

abbrev pub keyring_service : Text
keyring_service = str "rustmote"

unfoldable pub keyring_account : Text → Text → Text
keyring_account server user = server ++ (b':' ∷ user)

unfoldable pub split_account_server : Text → Text
split_account_server account = elim (split_once account b':') [ none ↦ account | some (s, u) ↦ s ]

unfoldable pub split_account_user : Text → Text
split_account_user account = elim (split_once account b':') [ none ↦ [] | some (s, u) ↦ u ]

pub record UnsafeFile : Type 0 where
  pub passwords : Dict Text

-- A store is resolved to the system's keyring, or to a file.
pub data CredentialStore : Type 0 where
  prompt_store keychain_store : CredentialStore
  unsafe_store : (path : Text) → CredentialStore

module _ (V : Vault) where
  open V use {World}

  -- `SystemKeyring`: an entry is made first.
  with_entry : {A : Type 0} → Text → Text → Io World A → Io World A
  with_entry service account next w =
      let (made, w') = V.new_entry service account w in
      elim made [ none ↦ next w' | some why ↦ (err (credential why), w') ]

  pub keyring_get : Text → Text → Io World Text
  unfolding with_entry
  keyring_get service account = with_entry service account (λ w.
      let (found, w') = V.get_entry service account w in
      elim found [
        | inr password ↦ (ok password, w')
        | inl no_entry ↦ (
          err (no_stored_credential (split_account_server account) (split_account_user account)),
          w',
        )
        | inl (other why) ↦ (err (credential why), w')
      ])

  pub keyring_set : Text → Text → Text → Io World (Unit {0})
  unfolding with_entry
  keyring_set service account password = with_entry service account (λ w.
      let (failed, w') = V.set_entry service account password w in
      elim failed [ none ↦ (ok tt, w') | some why ↦ (err (credential why), w') ])

  pub keyring_delete : Text → Text → Io World (Unit {0})
  unfolding with_entry
  keyring_delete service account = with_entry service account (λ w.
      let (failed, w') = V.delete_entry service account w in
      elim failed [
        | none ↦ (ok tt, w')
        | some no_entry ↦ (ok tt, w')
        | some (other why) ↦ (err (credential why), w')
      ])

  -- Only the nine permission bits count.
  unfoldable pub check_unsafe_permissions : Text → Io World (Unit {0})
  check_unsafe_permissions path w =
      let (found, w') = V.metadata path w in
      elim found [
        | inr mode ↦
            if mode % 512 == 384
            then (ok tt, w')
            else (err (insecure_credentials_file (mode % 512)), w')
        | inl not_found ↦ (ok tt, w')
        | inl e ↦ (err (io e), w')
      ]

  unfoldable parse : Text → Text → Result UnsafeFile
  parse path raw = elim (V.from_toml raw) [
    | inl why ↦ err (config_parse path why)
    | inr passwords ↦ ok (record { passwords = passwords })
  ]

  read_contents : Text → Io World UnsafeFile
  unfolding parse
  read_contents path w =
      let (found, w') = V.read_to_string path w in
      elim found [
        | inr raw ↦ (parse path raw, w')
        | inl not_found ↦ (ok (record { passwords = [] }), w')
        | inl e ↦ (err (io e), w')
      ]

  unfoldable pub read_unsafe_file : Text → Io World UnsafeFile
  unfolding read_contents
  read_unsafe_file path = do check_unsafe_permissions path; read_contents path

  make_parent : Option Text → Io World (Unit {0})
  make_parent none = pure tt
  make_parent (some dir) = V.create_dir_all dir

  unfoldable pub write_unsafe_file : Text → UnsafeFile → Io World (Unit {0})
  unfolding make_parent
  write_unsafe_file path file = do
    make_parent (V.parent path)
    serialized ← lift (V.to_toml file.passwords)
    V.open_truncated path 384
    V.write_all path serialized
    V.sync_all path

  pub prompt_for_password : Text → Text → Io World Text
  prompt_for_password server user =
      V.prompt_password (str "Password for " ++ (user ++ (str "@" ++ (server ++ str ": "))))

  unfoldable pub from_mode : CredentialMode → Result CredentialStore
  from_mode prompt = ok prompt_store
  from_mode keychain = ok keychain_store
  from_mode unsafe = elim V.credentials_path [ ok path ↦ ok (unsafe_store path) | err e ↦ err e ]

  pub from_config : Config → Result CredentialStore
  from_config cfg = from_mode cfg.general.credential_mode

  unfoldable found_or : Text → Text → Option Text → Result Text
  found_or server user none = err (no_stored_credential server user)
  found_or server user (some password) = ok password

  unfoldable pub get_password : CredentialStore → Text → Text → Io World Text
  unfolding found_or
  get_password prompt_store server user = prompt_for_password server user
  get_password keychain_store server user =
      keyring_get keyring_service (keyring_account server user)
  get_password (unsafe_store path) server user = do
    file ← read_unsafe_file path
    lift (found_or server user (Dict.get file.passwords (keyring_account server user)))

  unfoldable pub set_password : CredentialStore → Text → Text → Text → Io World (Unit {0})
  set_password prompt_store server user password = pure tt
  set_password keychain_store server user password =
      keyring_set keyring_service (keyring_account server user) password
  set_password (unsafe_store path) server user password = do
    file ← read_unsafe_file path
    write_unsafe_file path
        (record { passwords = Dict.insert file.passwords (keyring_account server user) password })

  unfoldable pub delete_password : CredentialStore → Text → Text → Io World (Unit {0})
  delete_password prompt_store server user = pure tt
  delete_password keychain_store server user =
      keyring_delete keyring_service (keyring_account server user)
  delete_password (unsafe_store path) server user = do
    file ← read_unsafe_file path
    write_unsafe_file path
        (record { passwords = Dict.remove file.passwords (keyring_account server user) })
