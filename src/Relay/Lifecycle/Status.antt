-- ===== src/Relay/Lifecycle/Status.antt =====
-- `RelayLifecycle::status`.
use rustmote.Prelude.{Option, none, some, [], ◌==◌, if◌then◌else◌}
use rustmote.Text.{Text}
use rustmote.Error.{Result, ok, err}
use rustmote.Effect.{Io, pure, attempt, ◌>>=◌}
use rustmote.Relay.Commands.{compose_ps_json}
use rustmote.Relay.ComposePs.{Value, parse_compose_ps_json}
use rustmote.Relay.Remote.{Remote}
use rustmote.Relay.Steps.{exec_raw, load_state, read_public_key}
use rustmote.Relay.Lifecycle.{StatusReport}

-- `Result::ok`.
abbrev pub to_option {ℓ} : {A : Type ℓ} → Result A → Option A
to_option (ok a) = some a
to_option (err e) = none

module _ (R : Remote) (from_str : Text → Option Value) where
  open R use {World, lossy}

  pub status : Text → Io World StatusReport
  status install_path = do
    state ← load_state R install_path
    ps ← exec_raw R (compose_ps_json install_path)
    let rows = parse_compose_ps_json from_str (lossy ps.stdout)
    key ← attempt (read_public_key R install_path)
    pure (record {
      install_path = install_path;
      state = state;
      containers = if ps.exit_code == 0 then rows else [];
      relay_public_key = to_option key;
    })
