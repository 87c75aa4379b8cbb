-- ===== src/Cli/Connect/Run/Steps.antt =====
-- crates/rustmote-cli/src/commands/connect.rs: what the steps of a connection leave of the files.
use rustmote.Prelude.{◌≡◌, refl, sym, ap, Bool, true, false, Bool-cases, inl, inr}
use rustmote.Text.{Text, str}
use rustmote.Error.{Result, ok, err}
use rustmote.Effect.{Io}
use rustmote.Credentials.{CredentialStore, from_config}
use rustmote.Disk.{Disk}
use rustmote.Config.{Config}
use rustmote.Server.{RemoteServer}
use rustmote.KnownHosts.{KnownHosts, trust_on_first_use}
use rustmote.Session.HostKeyHandler.{Shared}
use rustmote.Session.Auth.{AuthMaterial}
use rustmote.Session.Open.{Session, open_session}
use rustmote.Viewer.{TargetId}
use rustmote.Cli.{CliResult, done, failed, with_context, with_context-done}
use rustmote.Cli.Flow.{Leaves, Leaves-give, Leaves-decide, Leaves-within, Leaves-bind}
use rustmote.Cli.Connect.Run.{
  Desk, World, in_outside, has_default_ssh_keys, stored_password, resolve_password, tunnel,
  open_tunnel, stamp_last_used, view, exited,
}

module _ (K : Desk) where
  -- Only the outside changes.
  Leaves-in_outside :
      {A : Type 0} (text : Text) (m : Io K.Outside A)
      → Leaves (λ (w : World K). w.files) (in_outside K text m)
  Leaves-in_outside text m = Leaves-within _ _ text m (λ v w. refl)

  exited-files : (status : Bool × Text) → Leaves (λ (w : World K). w.files) (exited K status)
  unfolding exited
  exited-files (true, text) = Leaves-give tt
  exited-files (false, text) = Leaves-decide _

  pub view-files :
      (cfg : Config) (id : TargetId) → Leaves (λ (w : World K). w.files) (view K cfg id)
  unfolding view
  view-files cfg id = Leaves-bind _ _ (Leaves-decide _) (λ kind.
      Leaves-bind _ _ (Leaves-in_outside _ _) (λ u.
        Leaves-bind _ _ (Leaves-in_outside _ _)
          (λ status. Leaves-bind _ _ (Leaves-in_outside _ _) (λ u. exited-files status))))

  pub stamp_last_used-files :
      (via : Text) (cfg : Config) → Leaves (λ (w : World K). w.files) (stamp_last_used K via cfg)
  unfolding stamp_last_used
  stamp_last_used-files via cfg = record { at = λ w. refl }

  -- Passwords touch neither the files nor the outside.
  abbrev pub beside_secrets : World K → Disk.World K.disk × K.Outside
  beside_secrets w = (w.files, w.outside)

  stored_password-Leaves :
      (r : Result CredentialStore) (server : RemoteServer)
      → Leaves beside_secrets (stored_password K r server)
  unfolding stored_password
  stored_password-Leaves (ok store) server = record { at = λ w. refl }
  stored_password-Leaves (err e) server = record { at = λ w. refl }

  pub resolve_password-Leaves :
      (cfg : Config) (server : RemoteServer) → Leaves beside_secrets (resolve_password K cfg server)
  unfolding resolve_password
  resolve_password-Leaves cfg server = record {
    at = λ w. elim (Bool-cases (has_default_ssh_keys K w.outside)) [
      | inl there ↦ rw (resolve_password, there) refl
      | inr missing ↦
          rw (resolve_password, missing)
            ((stored_password-Leaves (from_config K.vault cfg) server).at w)
    ];
  }

  tunnel-done :
      (r : CliResult (Session × Bool)) (kh after : KnownHosts) (session : Session) (newly : Bool)
      → tunnel K r kh ≡ done (session, newly, after)
      → (r ≡ done (session, newly)) × (kh ≡ after)
  unfolding tunnel
  tunnel-done (done (s, n)) kh after session newly success = (cc, cc)
  tunnel-done (failed e) kh after session newly success = absurd cc

  -- A tunnel that was opened is a session that was opened.
  pub open_tunnel-opened :
      (server : RemoteServer) (auth : AuthMaterial) (kh after : KnownHosts) (session : Session)
      (newly : Bool) (w w' : World K)
      → open_tunnel K server auth kh w ≡ (done (session, newly, after), w')
      → (w'.files ≡ w.files)
        × ((outside : K.Outside) × (shared : Shared) × (open_session K.ssh K.network server auth kh
                trust_on_first_use w.outside
              ≡ (ok (session, newly), (outside, shared)))
            × (shared.known_hosts ≡ after))
  unfolding open_tunnel
  open_tunnel-opened server auth kh after session newly w w' success =
      let opened = open_session K.ssh K.network server auth kh trust_on_first_use w.outside in
      let (is_done, left) =
        tunnel-done (with_context (str "opening SSH session to relay") opened.0)
          opened.1.1.known_hosts after session newly (ap (λ x. x.0) success) in
      (
        ap (λ (x : CliResult (Session × Bool × KnownHosts) × World K). x.1.files) (sym success),
        (
          opened.1.0,
          opened.1.1,
          ap (λ r. (r, (opened.1.0, opened.1.1)))
              (with_context-done (str "opening SSH session to relay") opened.0 is_done),
          left,
        ),
      )
