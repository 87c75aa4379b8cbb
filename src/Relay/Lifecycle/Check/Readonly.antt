-- ===== src/Relay/Lifecycle/Check/Readonly.antt =====
-- `check_updates` changes nothing on the host.
use rustmote.Prelude.{◌≡◌, refl, Bool, true, false, List, [], ◌∷◌, not}
use rustmote.Text.{Text}
use rustmote.Error.{Result, ok, err}
use rustmote.Effect.{Io, lift, ◌>>=◌}
use rustmote.Effect.Keeps.{Keeps, Keeps-bind, Keeps-if, Keeps-lift, Keeps-pure, Keeps-raise}
use rustmote.Relay.State.{ImagePin}
use rustmote.Relay.Paths.{state_path}
use rustmote.Relay.Commands.{
  test_dir_exists, test_file_exists, cat_file, read_os_release, check_docker_present,
  check_docker_compose_v2, check_docker_compose_v1,
}
use rustmote.Relay.Remote.{Remote}
use rustmote.Relay.Steps.{exec_ok, path_exists, read_file, load_state}
use rustmote.Relay.Lifecycle.Check.{check_pin, check_pins, check_updates}

-- The commands that only look: the tests for files and folders, `cat`, and the questions about the
-- system and docker.
pub data IsLook : Text → Type 0 where
  test_dir : (p : Text) {command : Text} → test_dir_exists p ≡ ok command → IsLook command
  test_file : (p : Text) {command : Text} → test_file_exists p ≡ ok command → IsLook command
  cat : (p : Text) {command : Text} → cat_file p ≡ ok command → IsLook command
  os_release : IsLook read_os_release
  docker : IsLook check_docker_present
  compose_v2 : IsLook check_docker_compose_v2
  compose_v1 : IsLook check_docker_compose_v1

-- A predicate of the world that looking and asking the registry keep.
pub record IsSteady (R : Remote) (P : Remote.World R → Type 0) : Type 0 where
  pub look : (command : Text) → IsLook command → Keeps P (R.exec command)
  pub list_tags : (repo : Text) → Keeps P (R.list_tags repo)
  pub resolve_digest : (repo tag : Text) → Keeps P (R.resolve_digest repo tag)

module _ (R : Remote) {P : Remote.World R → Type 0} (steady : IsSteady R P) where
  -- A built command that only looks.
  pub Keeps-built :
      {A : Type 0} (built : Result Text) (f : Text → Io (Remote.World R) A)
      → ((command : Text) → built ≡ ok command → Keeps P (f command))
      → Keeps P (lift built >>= f)
  unfolding ◌>>=◌
  Keeps-built (ok command) f h = h command refl
  Keeps-built (err e) f h = Keeps-raise e

  pub Keeps-exec_ok : (command : Text) → IsLook command → Keeps P (exec_ok R command)
  unfolding exec_ok
  Keeps-exec_ok command look =
      Keeps-bind (R.exec command) _ (steady.look command look) (λ out. Keeps-lift _)

  pub Keeps-path_exists : (p : Text) (directory : Bool) → Keeps P (path_exists R p directory)
  unfolding path_exists
  Keeps-path_exists p true =
      Keeps-bind _ _
        (Keeps-built (test_dir_exists p) _ (λ command e. steady.look command (test_dir p e)))
        (λ out. Keeps-pure _)
  Keeps-path_exists p false =
      Keeps-bind _ _
        (Keeps-built (test_file_exists p) _ (λ command e. steady.look command (test_file p e)))
        (λ out. Keeps-pure _)

  pub Keeps-read_file : (p : Text) → Keeps P (read_file R p)
  unfolding read_file
  Keeps-read_file p = Keeps-built (cat_file p) _ (λ command e. Keeps-exec_ok command (cat p e))

  pub Keeps-load_state : (install_path : Text) → Keeps P (load_state R install_path)
  unfolding load_state
  Keeps-load_state install_path =
      Keeps-bind _ _ (Keeps-path_exists (state_path install_path) false) (λ installed.
        Keeps-if (not installed) _ _ (Keeps-raise _)
          (Keeps-bind _ _ (Keeps-read_file (state_path install_path)) (λ out. Keeps-lift _)))

  Keeps-check_pins : (pins : List ImagePin) → Keeps P (check_pins R pins)
  unfolding check_pin check_pins
  Keeps-check_pins [] = Keeps-pure []
  Keeps-check_pins (pin ∷ pins) =
      Keeps-bind _ _
        (Keeps-bind _ _ (steady.list_tags pin.repo)
          (λ tags. Keeps-bind _ _ (steady.resolve_digest pin.repo _) (λ d. Keeps-pure _)))
        (λ u. Keeps-bind _ _ (Keeps-check_pins pins) (λ us. Keeps-pure (u ∷ us)))

  pub Keeps-check_updates : (install_path : Text) → Keeps P (check_updates R install_path)
  unfolding check_updates
  Keeps-check_updates install_path =
      Keeps-bind _ _ (Keeps-load_state install_path)
        (λ state. Keeps-bind _ _ (Keeps-check_pins state.images) (λ us. Keeps-pure _))

  -- Whatever looking at the host and asking the registry leave true, checking for updates does too,
  -- whether it succeeds or fails.
  pub check_updates-steady :
      (install_path : Text) (w : Remote.World R) → P w → P (check_updates R install_path w).1
  check_updates-steady install_path w before = (Keeps-check_updates install_path).at w before
