-- ===== src/KnownHosts.antt =====
-- crates/rustmote-core/src/session/known_hosts.rs: the host keys that are pinned on first use.
pub mod Endpoint
pub mod Store
pub mod Pins
use rustmote.Prelude.{ℕ, Bool, true, false, Option, none, some, ◌∷◌, ◌++◌, if◌then◌else◌}
use rustmote.Text.{Text, text_eq, decimal}
use rustmote.Time.{DateTime}
use rustmote.Dict
use rustmote.Dict.{Dict}

pub record HostKey : Type 0 where
  pub fingerprint : Text
  pub key_type : Text
  pub first_seen : DateTime

pub record KnownHosts : Type 0 where
  pub entries : Dict HostKey

pub data TofuOutcome : Type 0 where
  pinned matched : TofuOutcome
  mismatch : (expected : HostKey) (actual_fingerprint : Text) → TofuOutcome
  unknown_rejected : TofuOutcome

pub data TofuPolicy : Type 0 where
  trust_on_first_use strict : TofuPolicy

-- `"{host}:{port}"`.
unfoldable pub endpoint : Text → ℕ → Text
endpoint host port = host ++ (b':' ∷ decimal port)

unfoldable pub get : KnownHosts → Text → ℕ → Option HostKey
get kh host port = Dict.get kh.entries (endpoint host port)

-- An endpoint that is not pinned: the policy decides.
first_use : TofuPolicy → Text → HostKey → KnownHosts → TofuOutcome × KnownHosts
first_use trust_on_first_use key observed kh =
    (pinned, record kh { entries = Dict.insert kh.entries key observed })
first_use strict key observed kh = (unknown_rejected, kh)

unfoldable pub verify_or_pin :
    Text → ℕ → HostKey → TofuPolicy → KnownHosts → TofuOutcome × KnownHosts
unfolding first_use
verify_or_pin host port observed policy kh =
    let key = endpoint host port in
    elim (Dict.get kh.entries key) [
      | some existing ↦
          (if text_eq existing.fingerprint observed.fingerprint
            then (matched, kh)
            else (mismatch existing observed.fingerprint, kh))
      | none ↦ first_use policy key observed kh
    ]
