-- ===== src/Cli/Registry.antt =====
-- crates/rustmote-cli/src/commands/server.rs and target.rs: the commands that add and remove servers
-- and targets, without their output.
pub mod Sound
pub mod OnDisk
pub mod Stored
pub mod Safe
use rustmote.Prelude.{◌⊎◌, inl, inr, ℕ, Bool, true, false, Option, none, some, ◌++◌, if◌then◌else◌}
use rustmote.Text.{Text, str}
use rustmote.Time.{DateTime}
use rustmote.Net.{IpAddr}
use rustmote.Error.{Result, ok, err}
use rustmote.Effect.{Io}
use rustmote.Places.{Places}
use rustmote.Disk.{Disk, Format}
use rustmote.Config.{Config}
use rustmote.Config.Store.{load, save}
use rustmote.Server.{RemoteServer, validate_name, new_server}
use rustmote.Target.{Target}
use rustmote.Registry
use rustmote.Registry.{get_server}
use rustmote.Viewer
use rustmote.Cli.{message, context, CliResult, done, failed, with_context}
use rustmote.Cli.Flow.{CliIo, decide, on_disk, ◌>>=◌, ◌>>◌}

-- What `dialoguer` makes of a prompt, where standard input is a terminal: the error or the answer.
abbrev pub Terminal : Type 0
Terminal = Option ((prompt : Text) → Text ⊎ Text)

unfoldable pub resolve_user : Terminal → Option Text → (server_name : Text) → CliResult Text
resolve_user terminal (some user) server_name = done user
resolve_user (some interact_text) none server_name =
    elim (interact_text (str "SSH username for '" ++ server_name ++ str "'")) [
      | inl e ↦ failed (context (str "reading SSH username from prompt") (message e))
      | inr typed ↦ done typed
    ]
resolve_user none none server_name =
    failed (message (str "--user is required when stdin is not a TTY (pass --user <name>)"))

-- The configuration after an operation on it that succeeded.
unfoldable pub changed : {A : Type 0} → Text → Result A × Config → CliResult Config
changed text (ok a, cfg) = done cfg
changed text (err e, cfg) = with_context text (err e)

unfoldable pub check_via : Config → Option Text → CliResult (Unit {0})
check_via cfg none = done tt
check_via cfg (some server) =
    elim (with_context (str "--via '" ++ server ++ str "' is not in the registry")
      (get_server cfg server)) [ done s ↦ done tt | failed e ↦ failed e ]

unfoldable pub with_target : (id : Text) (label via : Option Text) → Config → CliResult Config
with_target id label via cfg = elim (check_via cfg via) [
  | failed e ↦ failed e
  | done u ↦ changed (str "adding target to registry") (
      Registry.add_target
        (record { id = id; ip = none; label = label; via_server = via; last_seen = none }) cfg)
]

module _ (D : Disk) (F : Format Config) (places : Places) where
  open D use {World}

  -- The configuration is loaded, changed and saved.
  unfoldable pub edit : (Config → CliResult Config) → CliIo World (Unit {0})
  edit change = do
    cfg ← on_disk (str "loading config") (load D F places)
    cfg' ← decide (change cfg)
    on_disk (str "saving config") (save D F places cfg')

  unfoldable pub server_add :
      Terminal
      → DateTime
      → (name : Text) → IpAddr
      → (user : Option Text) → (ssh_port relay_port : ℕ) → CliIo World (Unit {0})
  server_add terminal now name host user ssh_port relay_port = do
    decide (with_context (str "validating server name against spec §6.4") (validate_name name))
    user' ← decide (resolve_user terminal user name)
    edit (λ cfg.
        changed (str "adding server to registry")
          (Registry.add_server (new_server now name host user' ssh_port relay_port) cfg))

  unfoldable pub server_remove : (name : Text) → CliIo World (Unit {0})
  server_remove name =
      edit (λ cfg. changed (str "removing server") (Registry.remove_server name cfg))

  unfoldable pub target_add : (id : Text) (label via : Option Text) → CliIo World (Unit {0})
  target_add id label via = do
    decide (with_context (str "validating target id against spec §3.5") (Viewer.new id))
    edit (with_target id label via)

  unfoldable pub target_remove : (id : Text) → CliIo World (Unit {0})
  target_remove id = edit (λ cfg. changed (str "removing target") (Registry.remove_target id cfg))
