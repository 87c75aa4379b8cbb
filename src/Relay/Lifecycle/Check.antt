-- ===== src/Relay/Lifecycle/Check.antt =====
-- `RelayLifecycle::check_updates`.
pub mod Readonly
use rustmote.Prelude.{Option, none, some, List, [], ◌∷◌}
use rustmote.Text.{Text}
use rustmote.Effect.{Io, pure, ◌>>=◌, ◌>>◌}
use rustmote.Relay.State.{ImagePin, RelayState}
use rustmote.Relay.Semver.{pick_latest_semver}
use rustmote.Relay.Remote.{Remote}
use rustmote.Relay.Steps.{load_state}
use rustmote.Relay.Lifecycle.{ImageUpdate, CheckUpdatesReport}

abbrev pub or_current : Text → Option Text → Text
or_current tag none = tag
or_current tag (some t) = t

module _ (R : Remote) where
  open R use {World, list_tags, resolve_digest}

  unfoldable pub check_pin : ImagePin → Io World ImageUpdate
  check_pin pin = do
    tags ← list_tags pin.repo
    let latest_tag = or_current pin.tag (pick_latest_semver tags)
    latest_digest ← resolve_digest pin.repo latest_tag
    pure (record {
      service = pin.service;
      repo = pin.repo;
      current_tag = pin.tag;
      current_digest = pin.digest;
      latest_tag = latest_tag;
      latest_digest = latest_digest;
    })

  unfoldable pub check_pins : List ImagePin → Io World (List ImageUpdate)
  check_pins [] = pure []
  check_pins (pin ∷ pins) = do u ← check_pin pin; us ← check_pins pins; pure (u ∷ us)

  unfoldable pub check_updates : Text → Io World CheckUpdatesReport
  check_updates install_path = do
    state ← load_state R install_path
    updates ← check_pins state.images
    pure (record { install_path = install_path; images = updates })
