-- ===== src/Error.antt =====
-- crates/rustmote-core/src/error.rs: the error type, and results that carry it.
-- The errors of other crates that a variant wraps are texts.
use rustmote.Prelude.{ℕ, ◌≡◌, refl}
use rustmote.Text.{Text}

-- `std::io::Error`, as far as the program looks into it.
pub data IoError : Type 0 where
  not_found : IoError
  other : Text → IoError

pub data RustmoteError : Type 0 where
  config_not_found : Text → RustmoteError
  unknown_server : Text → RustmoteError
  server_already_exists : Text → RustmoteError
  unknown_target : Text → RustmoteError
  target_already_exists : Text → RustmoteError
  no_config_dir : RustmoteError
  config_parse : (path source : Text) → RustmoteError
  config_serialize : Text → RustmoteError
  ssh_connection : Text → RustmoteError
  host_key_mismatch : (host : Text) (port : ℕ) (expected actual : Text) → RustmoteError
  host_key_unknown : (host : Text) (port : ℕ) → RustmoteError
  ssh_auth_failed : (user host methods last_error : Text) → RustmoteError
  no_ssh_key_found : Text → RustmoteError
  remote_command_failed : (command : Text) (exit_code : ℕ) (stderr : Text) → RustmoteError
  credential : Text → RustmoteError
  viewer_not_found : RustmoteError
  invalid_target_id : Text → RustmoteError
  invalid_server_name : Text → RustmoteError
  discovery_no_interface : RustmoteError
  unsafe_mode_not_acknowledged : RustmoteError
  insecure_credentials_file : ℕ → RustmoteError
  unsafe_mode_unsupported_on_platform : RustmoteError
  no_stored_credential : (server user : Text) → RustmoteError
  registry_api : Text → RustmoteError
  relay_not_installed : Text → RustmoteError
  relay_already_installed : Text → RustmoteError
  relay_health_check_failed : RustmoteError
  docker_compose_v1_detected : RustmoteError
  docker_engine_not_installed : RustmoteError
  relay_unsupported_os : Text → RustmoteError
  relay_foreign_install : Text → RustmoteError
  relay_update_not_confirmed : RustmoteError
  invalid_relay_path : Text → RustmoteError
  invalid_image_ref : Text → RustmoteError
  io : IoError → RustmoteError

-- `crate::Result`.
pub data Result {ℓ} (A : Type ℓ) : Type ℓ where
  ok : A → Result A
  err : RustmoteError → Result A

module _ {ℓ κ} {A : Type ℓ} {B : Type κ} where
  infixl 5 ◌>>=◌ ◌>>◌
  -- `?`.
  abbrev pub ◌>>=◌ : Result A → (A → Result B) → Result B
  ok x >>= next = next x
  err why >>= next = err why

  abbrev pub ◌>>◌ : Result A → Result B → Result B
  r >> s = r >>= λ _. s

  -- A chain that succeeds has succeeded in its first part.
  pub >>=-eq-ok :
      (r : Result A) (next : A → Result B) {y : B}
      → (r >>= next) ≡ ok y
      → (x : A) × (r ≡ ok x) × (next x ≡ ok y)
  >>=-eq-ok (ok x) next success = (x, refl, success)
  >>=-eq-ok (err why) next success = cc
