-- ===== src/Relay/Lifecycle/Bootstrap/Loads.antt =====
-- What a fresh install leaves in the state file.
use rustmote.Prelude.{◌≡◌, false, not, some}
use rustmote.Text.{Text, bytes}
use rustmote.Error.{ok, >>=-eq-ok}
use rustmote.Effect.Keeps.{Keeps-attempt, Keeps-both}
use rustmote.Effect.Hoare.{
  Anything, Hoare, Hoare_ran, Hoare-at_hand, Hoare-bind, Hoare-fact, Hoare-if, Hoare-kept,
  Hoare-pure, Hoare-raise, Hoare-step, Hoare-weaken,
}
use rustmote.Relay.Commands.{validate_remote_path, write_file, compose_up}
use rustmote.Relay.Paths.{state_path}
use rustmote.Relay.State.{RelayState}
use rustmote.Relay.OsRelease.{OsKind}
use rustmote.Relay.Remote.{Remote}
use rustmote.Relay.Steps.{exec_built, load_state}
use rustmote.Relay.Health.{Settings}
use rustmote.Relay.Lifecycle.{BootstrapOptions, BootstrapReport}
use rustmote.Relay.Lifecycle.Bootstrap.{existing, fresh, bootstrap}
use rustmote.Relay.Lifecycle.Bootstrap.Existing.{Keeps-read_public_key}
use rustmote.Relay.Host.{IsHost, state}
use rustmote.Relay.Host.Checked.{Keeps-health}
use rustmote.Relay.Host.Steps.{Pair, host-IsSteady, Hoare-effect, Keeps-exec_built}
use rustmote.Relay.Host.Stored.{IsStore, load_state-loads}

module _ (R : Remote) (settings : Settings) (host : IsHost R) (store : IsStore R host) where
  abbrev World : Type 0
  World = Remote.World R

  -- The state file is at a valid path and holds the text of a state.
  abbrev IsAt : (install_path : Text) → RelayState → World → Type 0
  IsAt install_path s w =
      (q : Text) × (raw : Text) × (validate_remote_path (state_path install_path) ≡ ok q)
      × (R.to_toml s ≡ ok raw)
      × (host.file w (state_path install_path) ≡ some (bytes raw))

  abbrev Written : BootstrapOptions → BootstrapReport → World → Type 0
  Written opts r w = r.already_installed ≡ false → IsAt opts.install_path r.state w

  -- After the text of the state was written.
  Hoare-written :
      (install_path raw : Text)
      → let p = state_path install_path in
        let f = some (bytes raw) in
        Hoare
          (λ w. Unit {0})
          (exec_built R (write_file R.encode p (bytes raw)))
          (λ out w. ((q : Text) × (validate_remote_path p ≡ ok q)) × Pair R host p p f f w)
          Anything
  unfolding write_file
  Hoare-written install_path raw =
      let p = state_path install_path in
      Hoare-effect R host _ (λ command e.
        let (q, valid, made) = >>=-eq-ok (validate_remote_path p) _ e in
        Hoare-weaken _ (store.writes p (bytes raw) command e) (λ w u. tt)
          (λ out w there is_zero. ((q, valid), (there is_zero, there is_zero))) (λ why w u. tt))

  Hoare-fresh :
      (opts : BootstrapOptions) (os : OsKind)
      → Hoare (λ w. Unit {0}) (fresh R settings opts os) (Written opts) Anything
  unfolding fresh state_path
  Hoare-fresh opts os =
      let path = opts.install_path in
      let p = state_path path in
      Hoare-step _ _ (λ at. Hoare-step _ _ (λ pins. Hoare-step _ _ (λ compose.
        Hoare-step _ _ (λ root. Hoare-step _ _ (λ data_dir. Hoare-step _ _ (λ backups.
          Hoare-step _ _ (λ compose_file. Hoare-step _ _ (λ env_file.
            Hoare-bind _ _ (Hoare-at_hand _ (λ e w u. tt)) (λ raw. Hoare-fact _ (λ text.
              let f = some (bytes raw) in
              Hoare-bind _ _ (Hoare-written path raw) (λ out. Hoare-fact _ (λ valid.
                Hoare-bind _ _
                  (Hoare-kept _ (
                    Keeps-exec_built R host p p f f (compose_up path) (λ command e.
                      Keeps-both _ (host.up_keeps path command p f e state)
                        (host.up_keeps path command p f e state))))
                  (λ out.
                    Hoare-bind _ _ (Hoare-kept _ (Keeps-health R host p p f f settings _)) (λ u.
                      Hoare-bind _ _
                        (Hoare-kept _ (
                          Keeps-attempt _
                            (Keeps-read_public_key R settings (host-IsSteady R host p p f f) path)))
                        (λ key.
                          Hoare-pure _
                            (λ w there new. (valid.0, raw, valid.1, text, there.0)))))))))))))))))

  Hoare-existing :
      (opts : BootstrapOptions) (os : OsKind)
      → Hoare (λ w. Unit {0}) (existing R settings opts os) (Written opts) Anything
  unfolding existing
  Hoare-existing opts os = Hoare-step _ _ (λ there.
      Hoare-if (not there) _ _ (λ foreign. Hoare-raise _ (λ w u. tt))
        (λ ours. Hoare-step _ _ (λ out.
          Hoare-step _ _ (λ s. Hoare-step _ _ (λ key. Hoare-pure _ (λ w u new. absurd cc))))))

  Hoare-bootstrap :
      (opts : BootstrapOptions)
      → Hoare (λ w. Unit {0}) (bootstrap R settings opts) (Written opts) Anything
  unfolding bootstrap
  Hoare-bootstrap opts = Hoare-step _ _ (λ os. Hoare-step _ _ (λ ready.
      Hoare-step _ _
        (λ there. Hoare-if there _ _ (λ yes. Hoare-existing opts os) (λ no. Hoare-fresh opts os))))

  -- On a host whose commands change the files that they are to change and no other of these, that
  -- shows what was written, and with a TOML format that reads back: after a bootstrap that succeeded
  -- with a new install, loading the state succeeds and gives the state that the bootstrap reported.
  pub bootstrap-loads :
      (opts : BootstrapOptions) (report : BootstrapReport) (w w' : World)
      → bootstrap R settings opts w ≡ (ok report, w')
      → report.already_installed ≡ false
      → (v : World) × (load_state R opts.install_path w' ≡ (ok report.state, v))
  bootstrap-loads opts report w w' ran new =
      let (q, raw, valid, text, there) = Hoare_ran (Hoare-bootstrap opts) tt ran new in
      load_state-loads R host store opts.install_path q raw report.state w' valid text there
