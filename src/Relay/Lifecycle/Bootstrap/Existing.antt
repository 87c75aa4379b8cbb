-- ===== src/Relay/Lifecycle/Bootstrap/Existing.antt =====
-- `bootstrap` on a server that has an install already.
use rustmote.Prelude.{◌≡◌, true, false, Option, none, some}
use rustmote.Text.{Text}
use rustmote.Error.{ok}
use rustmote.Effect.Keeps.{
  Keeps, Keeps-attempt, Keeps-bind, Keeps-if, Keeps-lift, Keeps-pure, Keeps-raise,
}
use rustmote.Effect.Hoare.{
  Anything, Hoare-kept, Hoare-step, Hoare, Hoare_ran, Hoare-bind, Hoare-if, Hoare-pure,
  Hoare-weaken,
}
use rustmote.Relay.Remote.{Remote}
use rustmote.Relay.OsRelease.{OsKind}
use rustmote.Relay.Paths.{state_path}
use rustmote.Relay.Health.{Settings}
use rustmote.Relay.Steps.{detect_os, ensure_docker_stack, read_public_key}
use rustmote.Relay.Lifecycle.{BootstrapOptions, BootstrapReport}
use rustmote.Relay.Lifecycle.Bootstrap.{hinted_os, existing, fresh, bootstrap}
use rustmote.Relay.Lifecycle.Check.Readonly.{
  IsSteady, os_release, docker, compose_v2, compose_v1, Keeps-exec_ok, Keeps-path_exists,
  Keeps-read_file,
}

module _ (R : Remote) (settings : Settings) {P : Remote.World R → Type 0}
    (steady : IsSteady R P) where
  Keeps-hinted_os : (hint : Option OsKind) → Keeps P (hinted_os R settings hint)
  unfolding hinted_os detect_os
  Keeps-hinted_os (some os) = Keeps-pure os
  Keeps-hinted_os none = Keeps-bind _ _ (Keeps-exec_ok R steady _ os_release) (λ out. Keeps-lift _)

  Keeps-ensure_docker_stack : Keeps P (ensure_docker_stack R)
  unfolding ensure_docker_stack
  Keeps-ensure_docker_stack = Keeps-bind _ _ (steady.look _ docker) (λ present.
      Keeps-if _ _ _ (Keeps-raise _) (
        Keeps-bind _ _ (steady.look _ compose_v2) (λ v2.
          Keeps-if _ _ _ (Keeps-pure tt)
            (Keeps-bind _ _ (steady.look _ compose_v1) (λ v1. Keeps-raise _)))))

  pub Keeps-read_public_key : (install_path : Text) → Keeps P (read_public_key R install_path)
  unfolding read_public_key
  Keeps-read_public_key install_path =
      Keeps-bind _ _ (Keeps-read_file R steady _) (λ out. Keeps-pure _)

  Keeps-existing : (opts : BootstrapOptions) (os : OsKind) → Keeps P (existing R settings opts os)
  unfolding existing
  Keeps-existing opts os =
      Keeps-bind _ _ (Keeps-path_exists R steady (state_path opts.install_path) false) (λ installed.
        Keeps-if _ _ _ (Keeps-raise _) (
          Keeps-bind _ _ (Keeps-read_file R steady (state_path opts.install_path)) (λ out.
            Keeps-bind _ _ (Keeps-lift _) (λ state.
              Keeps-bind _ _ (Keeps-attempt _ (Keeps-read_public_key opts.install_path))
                (λ key. Keeps-pure _)))))

  -- A report of an install that was there comes from a state with `P`.
  abbrev Found : BootstrapReport → Remote.World R → Type 0
  Found r w = r.already_installed ≡ true → P w

  -- A fresh install reports that it is one.
  Hoare-fresh :
      (opts : BootstrapOptions) (os : OsKind)
      → Hoare {W = Remote.World R} (λ w. Unit {0}) (fresh R settings opts os) Found Anything
  unfolding fresh
  Hoare-fresh opts os = Hoare-step _ _ (λ at. Hoare-step _ _ (λ pins. Hoare-step _ _ (λ compose.
      Hoare-step _ _ (λ root. Hoare-step _ _ (λ data_dir. Hoare-step _ _ (λ backups.
        Hoare-step _ _ (λ compose_file. Hoare-step _ _ (λ env_file. Hoare-step _ _ (λ toml.
          Hoare-step _ _ (λ state_file. Hoare-step _ _ (λ up.
            Hoare-step _ _
              (λ healthy. Hoare-step _ _ (λ key. Hoare-pure _ (λ w p found. cc))))))))))))))

  Hoare-bootstrap : (opts : BootstrapOptions) → Hoare P (bootstrap R settings opts) Found Anything
  unfolding bootstrap
  Hoare-bootstrap opts = Hoare-bind _ _ (Hoare-kept _ (Keeps-hinted_os opts.os_hint)) (λ os.
      Hoare-bind _ _ (Hoare-kept _ Keeps-ensure_docker_stack) (λ ready.
        Hoare-bind _ _ (Hoare-kept _ (Keeps-path_exists R steady opts.install_path true)) (λ there.
          Hoare-if there _ _
            (λ yes_there.
              Hoare-weaken _ (Hoare-kept _ (Keeps-existing opts os)) (λ w p. p) (λ r w p found. p)
                (λ e w p. tt))
            (λ not_there.
              Hoare-weaken _ (Hoare-fresh opts os) (λ w p. tt) (λ r w h. h) (λ e w h. h)))))

  -- A bootstrap that reports an install that was there already has left true whatever looking at
  -- the host and asking the registry leave true.
  pub bootstrap-already_installed :
      (opts : BootstrapOptions) (report : BootstrapReport) (w w' : Remote.World R)
      → P w
      → bootstrap R settings opts w ≡ (ok report, w')
      → report.already_installed ≡ true
      → P w'
  bootstrap-already_installed opts report w w' before ran found =
      Hoare_ran (Hoare-bootstrap opts) before ran found
