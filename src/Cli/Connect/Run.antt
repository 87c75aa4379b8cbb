-- ===== src/Cli/Connect/Run.antt =====
-- crates/rustmote-cli/src/commands/connect.rs: `resolve_password` and `run`.
pub mod Steps
pub mod Stored
pub mod Pinned
use rustmote.Prelude.{ℕ, Bool, true, false, ◌||◌, Option, none, some, List, [], ◌++◌, if◌then◌else◌}
use rustmote.Text.{Text, str}
use rustmote.Time.{DateTime}
use rustmote.Error.{RustmoteError, no_stored_credential, Result, ok, err}
use rustmote.Effect.{Io}
use rustmote.Places.{Places}
use rustmote.Disk.{Disk, Format}
use rustmote.Config.{Config, viewer_override}
use rustmote.Config.Store as ConfigStore
use rustmote.Registry.{get_server, update_server}
use rustmote.Server.{RemoteServer}
use rustmote.Target.{Target}
use rustmote.Credentials.{Vault, CredentialStore, from_config, get_password}
use rustmote.KnownHosts.{KnownHosts, trust_on_first_use}
use rustmote.KnownHosts.Store as PinStore
use rustmote.Session.HostKeyHandler.{Shared}
use rustmote.Session.Auth.{AuthMaterial, Ssh}
use rustmote.Session.Open.{Network, Session, open_session}
use rustmote.Viewer.{TargetId, ViewerKind, Machine, Command, command, detect_with_override}
use rustmote.Cli.{CliError, caused_by, message, CliResult, done, failed, with_context}
use rustmote.Cli.Connect.{resolve_target, resolve_via_name}
use rustmote.Cli.Flow.{CliIo, give, decide, within, ◌>>=◌, ◌>>◌}

pub record ConnectArgs : Type 0 where
  pub target : Text
  pub via : Option Text
  pub user : Option Text

-- The parts of the program's surroundings, each with the world that it acts on: the files of the
-- configuration and the pins, the stores of passwords, and the network with the processes.
pub record Desk : Type 1 where
  pub disk : Disk
  pub vault : Vault
  pub Outside : Type 0
  pub config_format : Format Config
  pub pins_format : Format KnownHosts
  pub places : Places
  pub ssh : Ssh Outside
  pub network : Network Outside
  pub machine : Machine
  -- `Utc::now`, `Path::is_file` for a key, `Command::spawn`, `Child::wait` with the test of the
  -- status, how the status is printed, and `Session::close`
  pub now : Outside → DateTime
  pub is_key_file : Text → Outside → Bool
  pub spawn : Command → Io Outside (Unit {0})
  pub wait : Io Outside (Bool × Text)
  pub close : Io Outside (Unit {0})

module _ (K : Desk) where
  pub record World : Type 0 where
    pub files : Disk.World K.disk
    pub secrets : Vault.World K.vault
    pub outside : K.Outside

  abbrev pub on_disk : {A : Type 0} → Text → Io (Disk.World K.disk) A → CliIo World A
  on_disk =
      within (λ w. w.files)
        (λ files w. record { files = files; secrets = w.secrets; outside = w.outside })

  abbrev pub in_outside : {A : Type 0} → Text → Io K.Outside A → CliIo World A
  in_outside =
      within (λ w. w.outside)
        (λ outside w. record { files = w.files; secrets = w.secrets; outside = outside })

  unfoldable pub has_default_ssh_keys : K.Outside → Bool
  has_default_ssh_keys w = elim (Ssh.home_dir K.ssh) [
    | none ↦ false
    | some home ↦
        let ssh = Ssh.join K.ssh home (str ".ssh") in
        K.is_key_file (Ssh.join K.ssh ssh (str "id_ed25519")) w
        || K.is_key_file (Ssh.join K.ssh ssh (str "id_rsa")) w
  ]

  -- A password that is not stored is no error.
  or_no_password : Result Text → CliResult (Option Text)
  or_no_password (ok password) = done (some password)
  or_no_password (err (no_stored_credential server user)) = done none
  or_no_password (err e) = failed (caused_by e)

  stored_password : Result CredentialStore → RemoteServer → CliIo World (Option Text)
  unfolding or_no_password
  stored_password (err e) server w = (with_context (str "building credential store") (err e), w)
  stored_password (ok store) server w =
      let (r, secrets) = get_password K.vault store server.name server.ssh_user w.secrets in
      (or_no_password r, record { files = w.files; secrets = secrets; outside = w.outside })

  unfoldable pub resolve_password : Config → RemoteServer → CliIo World (Option Text)
  unfolding stored_password
  resolve_password cfg server w =
      if has_default_ssh_keys w.outside
      then (done none, w)
      else stored_password (from_config K.vault cfg) server w

  unfoldable pub effective : Option Text → RemoteServer → RemoteServer
  effective none server = server
  effective (some user) server = record {
    name = server.name;
    host = server.host;
    ssh_port = server.ssh_port;
    ssh_user = user;
    relay_port = server.relay_port;
    relay_key = server.relay_key;
    created_at = server.created_at;
    last_used = server.last_used;
  }

  tunnel : CliResult (Session × Bool) → KnownHosts → CliResult (Session × Bool × KnownHosts)
  tunnel (done (session, newly)) kh = done (session, newly, kh)
  tunnel (failed e) kh = failed e

  -- `Session::open`, with the pins as they are after it.
  unfoldable pub open_tunnel :
      RemoteServer → AuthMaterial → KnownHosts → CliIo World (Session × Bool × KnownHosts)
  unfolding tunnel
  open_tunnel server auth kh w =
      let (r, (outside, shared)) =
        open_session K.ssh K.network server auth kh trust_on_first_use w.outside in
      (
        tunnel (with_context (str "opening SSH session to relay") r) shared.known_hosts,
        record { files = w.files; secrets = w.secrets; outside = outside },
      )

  unfoldable pub save_if_new : Bool → KnownHosts → CliIo World (Unit {0})
  save_if_new newly_pinned kh =
      if newly_pinned
      then on_disk (str "persisting newly-pinned host key to known_hosts.toml")
          (PinStore.save K.disk K.pins_format K.places kh)
      else give tt

  -- `last_used` is stamped on the registered server, and the configuration saved.
  stamped : DateTime → RemoteServer → RemoteServer
  stamped now server = record {
    name = server.name;
    host = server.host;
    ssh_port = server.ssh_port;
    ssh_user = server.ssh_user;
    relay_port = server.relay_port;
    relay_key = server.relay_key;
    created_at = server.created_at;
    last_used = some now;
  }

  unfoldable pub stamp_last_used : Text → Config → CliIo World Config
  unfolding stamped
  stamp_last_used via_name cfg w =
      let (r, changed) = update_server via_name (stamped (K.now w.outside)) cfg in
      (
        elim (with_context (str "updating server last_used") r) [
          | done u ↦ done changed
          | failed e ↦ failed e
        ],
        w,
      )

  exited : Bool × Text → CliIo World (Unit {0})
  exited (success, status) =
      if success
      then give tt
      else decide (
          failed (
            message
              (str "RustDesk viewer exited with " ++ status ++ str "; tunnel has been torn down")))

  -- The viewer, until it exits.
  unfoldable pub view : Config → TargetId → CliIo World (Unit {0})
  unfolding exited
  view cfg target_id = do
    kind ← decide (
        with_context (str "locating RustDesk viewer (spec §3.5)")
          (detect_with_override K.machine (viewer_override cfg.general)))
    in_outside (str "spawning RustDesk viewer") (K.spawn (command kind target_id))
    status ← in_outside (str "waiting for RustDesk viewer to exit") K.wait
    in_outside (str "tearing down SSH session after viewer exit") K.close
    exited status

  -- What follows the opening of the tunnel.
  unfoldable pub connected :
      Config → TargetId → (via_name : Text) → Session × Bool × KnownHosts → CliIo World (Unit {0})
  connected cfg target_id via_name (session, newly_pinned, kh) = do
    save_if_new newly_pinned kh
    cfg' ← stamp_last_used via_name cfg
    on_disk (str "saving config after connect")
        (ConfigStore.save K.disk K.config_format K.places cfg')
    view cfg' target_id

  -- From the server that was resolved to the end.
  unfoldable pub connect_to :
      Config → TargetId → (via_name : Text) → RemoteServer → CliIo World (Unit {0})
  connect_to cfg target_id via_name server = do
    password ← resolve_password cfg server
    kh ← on_disk (str "loading known_hosts.toml") (PinStore.load K.disk K.pins_format K.places)
    opened ←
        open_tunnel server
          (record { extra_key_paths = []; key_passphrase = none; password = password }) kh
    connected cfg target_id via_name opened

  unfoldable pub run : ConnectArgs → CliIo World (Unit {0})
  run args = do
    cfg ← on_disk (str "loading config") (ConfigStore.load K.disk K.config_format K.places)
    (target_id, matched) ← decide (resolve_target cfg args.target)
    via_name ← decide (resolve_via_name args.via matched cfg)
    server ← decide (
        with_context (str "resolving relay server '" ++ via_name ++ str "'")
          (get_server cfg via_name))
    connect_to cfg target_id via_name (effective args.user server)
