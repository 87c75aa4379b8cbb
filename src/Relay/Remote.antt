-- ===== src/Relay/Remote.antt =====
-- What the lifecycle of a relay uses and does not implement: the transport of `RemoteExec`, the
-- clocks, the registry client, and the functions of other crates and of the standard library whose
-- results it does not look into.
use rustmote.Prelude.{ℕ, List}
use rustmote.Prelude.Int.{ℤ}
use rustmote.Text.{Text}
use rustmote.Time.{DateTime, Duration}
use rustmote.Error.{Result}
use rustmote.Effect.{Io}
use rustmote.Session.Exec.{ExecOutput}
use rustmote.Relay.State.{RelayState}

-- `World` is all that these can change: the remote host, the cache, the time.
pub record Remote : Type 1 where
  pub World : Type 0
  -- `RemoteExec::exec`
  pub exec : Text → Io World ExecOutput
  -- the clock closure, and `tokio::time::Instant::now` in nanoseconds
  pub now : World → DateTime
  pub instant : World → ℕ
  -- `tokio::time::sleep`
  pub sleep : Duration → World → World
  -- `RegistryClient::list_tags` and `resolve_digest`
  pub list_tags : Text → Io World (List Text)
  pub resolve_digest : (repo tag : Text) → Io World Text
  -- `String::from_utf8_lossy`, the base64 encoder, `str::to_lowercase`
  pub lossy : List ℕ → Text
  pub encode : List ℕ → Text
  pub to_lowercase : Text → Text
  -- `DateTime::format("%Y-%m-%dT%H-%M-%SZ")` and `DateTime::timestamp`
  pub format : DateTime → Text
  pub timestamp : DateTime → ℤ
  -- `RelayState::from_toml_str` (with its path hint) and `RelayState::to_toml_string`
  pub from_toml : (raw hint : Text) → Result RelayState
  pub to_toml : RelayState → Result Text
