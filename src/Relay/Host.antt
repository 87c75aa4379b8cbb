-- ===== src/Relay/Host.antt =====
-- What the operations of the lifecycle rely on in the host that they act on, in the SSH session and in
-- the registry client: which command changes which file, and which errors these fail with.
pub mod Apart
pub mod Refused
pub mod Steps
pub mod Checked
pub mod Stored
use rustmote.Prelude.{ℕ, ◌≡◌, ◌≢◌, ◌++◌, Option, List}
use rustmote.Text.{Text, str}
use rustmote.Time.{Duration}
use rustmote.Error.{RustmoteError, ok, relay_health_check_failed}
use rustmote.Effect.Keeps.{Keeps}
use rustmote.Effect.Hoare.{Anything, Hoare}
use rustmote.Effect.Fails.{Refuses, Fails}
use rustmote.Relay.Commands.{
  mkdir_p, copy_file, write_file, compose_up, compose_pull, compose_config, tcp_probe,
}
use rustmote.Relay.Paths.{posix_join, compose_path, state_path, backup_dir_for}
use rustmote.Relay.State.{RelayState}
use rustmote.Relay.Remote.{Remote}
use rustmote.Relay.Lifecycle.Check.Readonly.{IsLook}

-- Any failure but the one of the health check.
abbrev pub IsOther : RustmoteError → Type 0
IsOther e = e ≢ relay_health_check_failed

-- The commands that change no file: those that look, the probe of a port, a new folder, and what
-- `docker compose` does to show the configuration and to pull images.
pub data IsCalm : Text → Type 0 where
  looks : {command : Text} → IsLook command → IsCalm command
  probes : (port : ℕ) → IsCalm (tcp_probe port)
  makes_dir : (p : Text) {command : Text} → mkdir_p p ≡ ok command → IsCalm command
  shows : (p : Text) {command : Text} → compose_config p ≡ ok command → IsCalm command
  pulls : (p : Text) {command : Text} → compose_pull p ≡ ok command → IsCalm command

-- The files of an install that starting its containers leaves alone: all but their data.
pub data IsSettled (install_path : Text) : Text → Type 0 where
  compose : IsSettled install_path (compose_path install_path)
  state : IsSettled install_path (state_path install_path)
  backed_up :
      (suffix name : Text)
      → IsSettled install_path (posix_join (backup_dir_for install_path suffix) name)

-- Where a new content is written before it is moved to its place.
abbrev pub tmp_of : Text → Text
tmp_of path = path ++ str ".rustmote-tmp"

pub record IsHost (R : Remote) : Type 0 where
  pub file : Remote.World R → Text → Option (List ℕ)
  -- Commands, and what they do to files.
  pub copies :
      (src dst command : Text) (f : Option (List ℕ))
      → copy_file src dst ≡ ok command
      → Hoare
          (λ w. file w src ≡ f)
          (R.exec command)
          (λ out w. out.exit_code ≡ 0 → file w dst ≡ f)
          Anything
  pub copy_keeps :
      (src dst command path : Text) (f : Option (List ℕ))
      → copy_file src dst ≡ ok command
      → dst ≢ path
      → Keeps (λ w. file w path ≡ f) (R.exec command)
  pub write_keeps :
      (dst : Text) (content : List ℕ) (command path : Text) (f : Option (List ℕ))
      → write_file R.encode dst content ≡ ok command
      → dst ≢ path
      → tmp_of dst ≢ path
      → Keeps (λ w. file w path ≡ f) (R.exec command)
  pub up_keeps :
      (install_path command path : Text) (f : Option (List ℕ))
      → compose_up install_path ≡ ok command
      → IsSettled install_path path
      → Keeps (λ w. file w path ≡ f) (R.exec command)
  pub calm_keeps :
      (command path : Text) (f : Option (List ℕ))
      → IsCalm command
      → Keeps (λ w. file w path ≡ f) (R.exec command)
  pub sleep_keeps :
      (d : Duration) (w : Remote.World R) (path : Text) → file (R.sleep d w) path ≡ file w path
  pub tags_keep :
      (repo path : Text) (f : Option (List ℕ)) → Keeps (λ w. file w path ≡ f) (R.list_tags repo)
  pub digest_keeps :
      (repo tag path : Text) (f : Option (List ℕ))
      → Keeps (λ w. file w path ≡ f) (R.resolve_digest repo tag)
  -- The session, the registry client and the TOML format fail with errors of their own.
  pub exec_fails : (command : Text) → Fails IsOther (R.exec command)
  pub tags_fail : (repo : Text) → Fails IsOther (R.list_tags repo)
  pub digest_fails : (repo tag : Text) → Fails IsOther (R.resolve_digest repo tag)
  pub from_toml_refuses : (raw hint : Text) → Refuses IsOther (R.from_toml raw hint)
  pub to_toml_refuses : (s : RelayState) → Refuses IsOther (R.to_toml s)
