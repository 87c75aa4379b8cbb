-- ===== src/Relay/Health.antt =====
-- crates/rustmote-core/src/relay_lifecycle/mod.rs, `health_check`: the ports are probed until all of
-- them answer or the deadline has passed.
pub mod Bound
pub mod Live
use rustmote.Prelude.{
  ℕ, zero, suc, ◌+◌, Bool, true, false, not, List, [], ◌∷◌, leb, ◌==◌, if◌then◌else◌,
}
use rustmote.Time.{Duration}
use rustmote.Error.{relay_health_check_failed}
use rustmote.Effect.{Io, pure, raise, gets, modify, ◌>>=◌, ◌>>◌}
use rustmote.Relay.Commands.{tcp_probe}
use rustmote.Relay.Remote.{Remote}

-- The fields of `RelayLifecycle` that the loop reads, and a bound on its polls.
pub record Settings : Type 0 where
  pub health_check_timeout : Duration
  pub health_check_interval : Duration
  pub polls : ℕ

abbrev pub hbbs_port : ℕ
hbbs_port = 21116

abbrev pub hbbr_port : ℕ
hbbr_port = 21117

module _ (R : Remote) where
  open R use {World, exec, instant, sleep}

  -- One round: the first port that does not answer ends it.
  unfoldable pub probe_all : List ℕ → Io World Bool
  probe_all [] = pure true
  probe_all (p ∷ ports) = do
    out ← exec (tcp_probe p)
    if not (out.exit_code == 0) then pure false else probe_all ports

  -- The rounds. With no poll left the deadline counts as passed; `Relay/Health/Bound.antt` gives the
  -- number of polls at which this makes no difference.
  unfoldable pub health_loop : ℕ → Duration → (deadline : ℕ) → List ℕ → Io World (Unit {0})
  health_loop zero interval deadline ports = raise relay_health_check_failed
  health_loop (suc polls) interval deadline ports = do
    let again = health_loop polls interval deadline ports
    all_up ← probe_all ports
    if all_up then pure tt else do
      now ← gets instant
      if leb deadline now
          then raise relay_health_check_failed
          else do modify (sleep interval); again

  unfoldable pub health_check : Settings → List ℕ → Io World (Unit {0})
  health_check s ports = do
    start ← gets instant
    health_loop s.polls s.health_check_interval (start + s.health_check_timeout) ports
