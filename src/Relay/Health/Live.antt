-- ===== src/Relay/Health/Live.antt =====
-- When the health check succeeds.
use rustmote.Prelude.{
  ℕ, zero, suc, ◌≡◌, refl, ap, ◌∙◌, Bool, true, false, ◌≤◌, ◌<◌, ◌+◌, ◌*◌, List, [], ◌∷◌, arith,
  leb, ◌==◌, Bool-cases, inl, inr,
}
use rustmote.Error.{Result, ok}
use rustmote.Effect.{◌>>=◌, >>=-ok}
use rustmote.Session.Exec.{ExecOutput}
use rustmote.Relay.Commands.{tcp_probe}
use rustmote.Relay.Remote.{Remote}
use rustmote.Relay.Health.{probe_all, health_loop, health_check}
use rustmote.Relay.Health.Bound.{IsClock, Keeps-probe_all, after_probes}

-- A host whose ports answer from the time `up` on. Each probe is answered over SSH, and a round of
-- probes takes the time `round` at most.
pub record IsUpFrom (R : Remote) (ports : List ℕ) (up round : ℕ) : Type 0 where
  pub clock : IsClock R
  pub answer : (port : ℕ) → Remote.World R → ExecOutput
  pub answers : (port : ℕ) (w : Remote.World R) → (R.exec (tcp_probe port) w).0 ≡ ok (answer port w)
  pub opens : (port : ℕ) (w : Remote.World R) → up ≤ R.instant w → (answer port w).exit_code ≡ 0
  pub takes : (w : Remote.World R) → R.instant (probe_all R ports w).1 ≤ R.instant w + round

module _ (R : Remote) (all_ports : List ℕ) (up round : ℕ)
    (host : IsUpFrom R all_ports up round) where
  abbrev World : Type 0
  World = Remote.World R

  -- A round has an answer, and all ports are open from `up` on.
  probed :
      (ports : List ℕ) (w : World)
      → (b : Bool) × ((probe_all R ports w).0 ≡ ok b) × (up ≤ R.instant w → b ≡ true)
  unfolding probe_all ◌>>=◌
  probed [] w = (true, refl, λ later. refl)
  probed (p ∷ ports) w =
      let v = (R.exec (tcp_probe p) w).1 in
      let (b, same, opens) = probed ports v in
      let code = (host.answer p w).exit_code in
      let ran : R.exec (tcp_probe p) w ≡ (ok (host.answer p w), v) =
        ap (λ r. (r, v)) (host.answers p w) in
      let first = ap (λ (x : Result Bool × World). x.0) (>>=-ok (R.exec (tcp_probe p)) _ ran) in
      elim (Bool-cases (code == 0)) [
        | inl open_now ↦ (
          b,
          first ∙ rw open_now same,
          λ later. opens ((host.clock.exec_later up (tcp_probe p)).at w later),
        )
        | inr shut ↦
            (false, first ∙ rw shut, λ later. absurd (ground (arith, host.opens p w later)))
      ]

  abbrev Succeeds : (World → Result (Unit {0}) × World) → World → Type 0
  Succeeds m w = (v : World) × (m w ≡ (ok tt, v))

  -- A round that begins before the ports are open ends before the deadline, so that the next follows.
  settled :
      (polls interval deadline : ℕ) (b : Bool) (v : World)
      → (b ≡ false → R.instant v < deadline)
      → (b ≡ false
          → Succeeds (health_loop R polls interval deadline all_ports) (R.sleep interval v))
      → Succeeds (after_probes R host.clock polls interval deadline all_ports b) v
  unfolding ◌>>=◌
  settled polls interval deadline true v early again = (v, refl)
  settled polls interval deadline false v early again =
      let before : leb deadline (R.instant v) ≡ false = ground (arith, early refl) in
      rw before (again refl)

  -- A round succeeds, or it began too early and another one follows.
  health_loop-step :
      (polls interval deadline : ℕ) (w : World)
      → up + round ≤ deadline
      → (R.instant w < up
          → (w' : World) → R.instant w + interval ≤ R.instant w'
          → Succeeds (health_loop R polls interval deadline all_ports) w')
      → Succeeds (health_loop R (suc polls) interval deadline all_ports) w
  unfolding health_loop
  health_loop-step polls interval deadline w soon again =
      let (b, same, opens) = probed all_ports w in
      let v = (probe_all R all_ports w).1 in
      let ran : probe_all R all_ports w ≡ (ok b, v) = ap (λ r. (r, v)) same in
      let next =
        >>=-ok (probe_all R all_ports) (after_probes R host.clock polls interval deadline all_ports)
          ran in
      let too_early : b ≡ false → R.instant w < up = λ shut.
        elim (Bool-cases (leb up (R.instant w))) [
          | inl late ↦ absurd (ground (arith, shut, late, opens (ground (arith, late))))
          | inr early ↦ ground (arith, early)
        ] in
      let (v', succeeded) =
        settled polls interval deadline b v (λ shut. omega (arith, too_early shut, host.takes w))
          (λ shut. again (too_early shut) (R.sleep interval v) (
            omega (
              arith,
              (Keeps-probe_all R host.clock (R.instant w) all_ports).at w (omega arith),
              host.clock.sleep_later interval v,
            ))) in
      (v', next ∙ succeeded)

  health_loop-live :
      (polls interval deadline : ℕ) (w : World)
      → up + round ≤ deadline
      → up ≤ R.instant w + polls * interval
      → Succeeds (health_loop R (suc polls) interval deadline all_ports) w
  health_loop-live zero interval deadline w soon covered =
      health_loop-step 0 interval deadline w soon (λ early w' later. absurd (omega arith))
  health_loop-live (suc polls) interval deadline w soon covered =
      let covered' : up ≤ R.instant w + (interval + polls * interval) = ground arith in
      health_loop-step (suc polls) interval deadline w soon
        (λ early w' later. health_loop-live polls interval deadline w' soon (omega arith))

  -- On a host whose ports answer from some time on, with rounds of probes of a bounded length: if a
  -- round that begins before this time ends by the deadline, and there is a poll for each interval
  -- until then and one more, then the health check succeeds.
  pub health_check-live :
      (timeout interval n : ℕ) (w : World)
      → up + round ≤ R.instant w + timeout
      → up ≤ R.instant w + n * interval
      → (v : World) × (health_check R
            (record {
              health_check_timeout = timeout;
              health_check_interval = interval;
              polls = suc n;
            })
            all_ports
            w
          ≡ (ok tt, v))
  unfolding health_check ◌>>=◌
  health_check-live timeout interval n w soon covered =
      health_loop-live n interval (R.instant w + timeout) w soon covered
