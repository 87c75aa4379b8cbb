-- ===== src/Tests/Live.antt =====
-- A health check on a host whose ports open after a while.
use rustmote.Prelude.{ℕ, suc, ◌≡◌, refl, ◌≤◌, ◌+◌, [], ◌∷◌, arith, leb, if◌then◌else◌}
use rustmote.Prelude.Int.{pos}
use rustmote.Error.{ok}
use rustmote.Effect.{◌>>=◌}
use rustmote.Relay.Remote.{Remote}
use rustmote.Relay.Health.{health_check, probe_all}
use rustmote.Relay.Health.Bound.{IsClock}
use rustmote.Relay.Health.Live.{IsUpFrom, health_check-live}
use rustmote.Tests.Lifecycle.{answer, installed}

-- A command takes a unit of time, and the ports are open from the time 10 on.
abbrev host : Remote
host = record {
  World = ℕ;
  exec = λ command w. (ok (record answer { exit_code = if leb 10 w then 0 else 1 }), w + 1);
  now = λ w. w;
  instant = λ w. w;
  sleep = λ d w. w + d;
  list_tags = λ repo w. (ok [], w);
  resolve_digest = λ repo tag w. (ok [], w);
  lossy = λ bytes. bytes;
  encode = λ bytes. bytes;
  to_lowercase = λ s. s;
  format = λ t. [];
  timestamp = pos;
  from_toml = λ raw hint. ok installed;
  to_toml = λ s. ok [];
}

host-IsClock : IsClock host
host-IsClock = record {
  exec_later = λ t command. record { at = λ w later. omega arith };
  sleep_later = λ d w. omega arith;
}

two_probes : (w : ℕ) → (probe_all host (21116 ∷ 21117 ∷ []) w).1 ≤ w + 2
unfolding probe_all ◌>>=◌
two_probes w = ground arith

host-IsUpFrom : IsUpFrom host (21116 ∷ 21117 ∷ []) 10 2
host-IsUpFrom = record {
  clock = host-IsClock;
  answer = λ port w. record answer { exit_code = if leb 10 w then 0 else 1 };
  answers = λ port w. refl;
  opens = λ port w later. ground arith;
  takes = two_probes;
}

health_check-live_example :
    (v : ℕ) × (health_check host
        (record { health_check_timeout = 30; health_check_interval = 2; polls = suc 5 })
        (21116 ∷ 21117 ∷ [])
        0
      ≡ (ok tt, v))
health_check-live_example =
    health_check-live host (21116 ∷ 21117 ∷ []) 10 2 host-IsUpFrom 30 2 5 0 (omega arith)
      (omega arith)
