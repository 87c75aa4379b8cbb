-- ===== src/Relay/Health/Bound.antt =====
-- How many polls are enough for `health_loop`.
use rustmote.Prelude.{
  ℕ, zero, suc, ◌≡◌, refl, Bool, true, false, ◌≤◌, ◌<◌, ◌+◌, ◌*◌, List, [], ◌∷◌, arith, leb,
  if◌then◌else◌, Bool-cases, inl, inr,
}
use rustmote.Text.{Text}
use rustmote.Error.{Result, ok, err, relay_health_check_failed}
use rustmote.Effect.{Io, pure, raise, lift, gets, modify, ◌>>=◌, ◌>>◌}
use rustmote.Effect.Keeps.{Keeps, Keeps-bind, Keeps-if, Keeps-pure}
use rustmote.Relay.Remote.{Remote}
use rustmote.Relay.Commands.{tcp_probe}
use rustmote.Relay.Health.{probe_all, health_loop, health_check}

-- The clock of the source: a command does not turn it back, and a sleep moves it on by its length.
pub record IsClock (R : Remote) : Type 0 where
  pub exec_later : (t : ℕ) (command : Text) → Keeps (λ w. t ≤ R.instant w) (R.exec command)
  pub sleep_later : (d : ℕ) (w : Remote.World R) → R.instant w + d ≤ R.instant (R.sleep d w)

module _ (R : Remote) (clock : IsClock R) where
  pub Keeps-probe_all : (t : ℕ) (ports : List ℕ) → Keeps (λ w. t ≤ R.instant w) (probe_all R ports)
  unfolding probe_all
  Keeps-probe_all t [] = Keeps-pure true
  Keeps-probe_all t (p ∷ ports) =
      Keeps-bind _ _ (clock.exec_later t (tcp_probe p))
        (λ out. Keeps-if _ _ _ (Keeps-pure false) (Keeps-probe_all t ports))

  -- What a round does after its probes.
  abbrev pub after_probes : ℕ → ℕ → ℕ → List ℕ → Bool → Io (Remote.World R) (Unit {0})
  after_probes polls interval deadline ports all_up = if all_up then pure tt else do
    now ← gets R.instant
    if leb deadline now
        then raise relay_health_check_failed
        else do modify (R.sleep interval); health_loop R polls interval deadline ports

  after_probes-more :
      (n m interval deadline t : ℕ) (ports : List ℕ)
      → (t < deadline
          → (w : R.World) → t + interval ≤ R.instant w
          → health_loop R m interval deadline ports w ≡ health_loop R n interval deadline ports w)
      → (r : Result Bool) (w : R.World) → t ≤ R.instant w
      → (lift r >>= after_probes m interval deadline ports) w
        ≡ (lift r >>= after_probes n interval deadline ports) w
  unfolding ◌>>=◌
  after_probes-more n m interval deadline t ports same (err e) w later = refl
  after_probes-more n m interval deadline t ports same (ok true) w later = refl
  after_probes-more n m interval deadline t ports same (ok false) w later =
      elim (Bool-cases (leb deadline (R.instant w))) [
        | inl passed ↦ rw passed
        | inr early ↦
            let slept : R.instant w + interval ≤ R.instant (R.sleep interval w) =
              clock.sleep_later interval w in
            rw early (same (ground arith) (R.sleep interval w) (omega arith))
      ]

  health_loop-suc :
      (n m interval deadline : ℕ) (ports : List ℕ) (w : R.World)
      → (R.instant w < deadline
          → (w' : R.World) → R.instant w + interval ≤ R.instant w'
          → health_loop R m interval deadline ports w' ≡ health_loop R n interval deadline ports w')
      → health_loop R (suc m) interval deadline ports w
        ≡ health_loop R (suc n) interval deadline ports w
  unfolding health_loop ◌>>=◌
  health_loop-suc n m interval deadline ports w same =
      after_probes-more n m interval deadline (R.instant w) ports same (probe_all R ports w).0
        (probe_all R ports w).1 ((Keeps-probe_all (R.instant w) ports).at w (omega arith))

  -- Once the polls cover the time up to the deadline, further polls change nothing: the deadline
  -- ends the loop, not the bound on the polls.
  pub health_loop-more :
      (n m interval deadline : ℕ) (ports : List ℕ) (w : R.World)
      → n ≤ m
      → deadline ≤ R.instant w + n * interval
      → health_loop R (suc m) interval deadline ports w
        ≡ health_loop R (suc n) interval deadline ports w
  health_loop-more zero m interval deadline ports w more enough =
      health_loop-suc 0 m interval deadline ports w (λ early w' later. absurd (omega arith))
  health_loop-more (suc n) zero interval deadline ports w more enough = absurd (omega arith)
  health_loop-more (suc n) (suc m) interval deadline ports w more enough =
      let covered : deadline ≤ R.instant w + (interval + n * interval) = ground arith in
      health_loop-suc (suc n) (suc m) interval deadline ports w (λ early w' later.
        health_loop-more n m interval deadline ports w' (omega arith) (omega arith))

  -- On a clock that commands do not turn back and that a sleep moves on by its length at least, a
  -- health check with a poll for each interval in the timeout, and one more, has the result and the
  -- effects that it has with any greater number of polls.
  pub health_check-enough :
      (timeout interval n m : ℕ) (ports : List ℕ) (w : R.World)
      → n ≤ m
      → timeout ≤ n * interval
      → health_check R
          (record {
            health_check_timeout = timeout;
            health_check_interval = interval;
            polls = suc m;
          })
          ports
          w
        ≡ health_check R
            (record {
              health_check_timeout = timeout;
              health_check_interval = interval;
              polls = suc n;
            })
            ports
            w
  unfolding health_check ◌>>=◌
  health_check-enough timeout interval n m ports w more enough =
      health_loop-more n m interval (R.instant w + timeout) ports w more (omega arith)
