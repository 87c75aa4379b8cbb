-- ===== src/Cli/ConfigMode.antt =====
-- crates/rustmote-cli/src/commands/config.rs: the change of the credential mode.
pub mod Gate
use rustmote.Prelude.{Bool, true, false, not, ◌&&◌, Option, none, some, ◌++◌, if◌then◌else◌}
use rustmote.Text.{Text, str, trim, to_ascii_lowercase}
use rustmote.Effect.{Io}
use rustmote.CredentialMode.{CredentialMode, unsafe, from_str, mode_eq}
use rustmote.Disk.{Disk, Format}
use rustmote.Places.{Places}
use rustmote.Config.{Config}
use rustmote.Config.Store.{load, save}
use rustmote.Cli.{message, context, CliResult, done, failed}
use rustmote.Cli.Flow.{CliIo, give, decide, on_disk, ◌>>=◌}

abbrev pub refusal : Text
refusal =
    str
      "refusing to enable unsafe mode without --i-understand-this-is-insecure (spec §6.2). Unsafe mode stores plaintext SSH passwords in $CONFIG/rustmote/credentials.toml with mode 0600 and logs a warning on every access. Prefer 'keychain' where available."

-- The message of `UnknownCredentialMode`.
abbrev pub unknown_credential_mode : Text → Text
unknown_credential_mode mode =
    str "unknown credential mode '"
    ++ to_ascii_lowercase (trim mode)
    ++ str "'; expected one of: prompt | keychain | unsafe"

-- `mode.parse()`, with its context; the error of the parser is a message.
named_mode : Text → Option CredentialMode → CliResult CredentialMode
named_mode mode none = failed (
    context
      (str "'"
        ++ mode
        ++ str "' is not a valid credential mode (expected: prompt | keychain | unsafe)")
      (message (unknown_credential_mode mode)))
named_mode mode (some m) = done m

-- The gate of the unsafe mode.
gated : (ack_unsafe : Bool) → CliResult CredentialMode → CliResult CredentialMode
gated ack_unsafe (failed e) = failed e
gated ack_unsafe (done parsed) =
    if mode_eq parsed unsafe && not ack_unsafe then failed (message refusal) else done parsed

unfoldable pub parse_and_gate_mode : Text → (ack_unsafe : Bool) → CliResult CredentialMode
unfolding named_mode gated
parse_and_gate_mode mode ack_unsafe = gated ack_unsafe (named_mode mode (from_str mode))

-- Whether there was a change, and the configuration after it.
unfoldable pub apply_mode : CredentialMode → Config → Bool × Config
apply_mode new cfg =
    let previous = cfg.general.credential_mode in
    if mode_eq previous new then (false, cfg) else (
      true,
      record {
        general = record {
          credential_mode = new;
          default_server = cfg.general.default_server;
          viewer_path = cfg.general.viewer_path;
        };
        servers = cfg.servers;
        targets = cfg.targets;
      },
    )

module _ (D : Disk) (F : Format Config) (places : Places) where
  open D use {World}

  unfoldable pub save_if_changed : Bool × Config → CliIo World (Unit {0})
  save_if_changed (changed, cfg) =
      if changed then on_disk (str "saving config") (save D F places cfg) else give tt

  -- `ConfigCmd::SetMode`.
  unfoldable pub set_mode : Text → (ack_unsafe : Bool) → CliIo World (Unit {0})
  unfolding save_if_changed
  set_mode mode ack_unsafe = do
    parsed ← decide (parse_and_gate_mode mode ack_unsafe)
    cfg ← on_disk (str "loading config") (load D F places)
    save_if_changed (apply_mode parsed cfg)
