-- ===== src/Relay/Host/Checked.antt =====
-- The health check changes no file.
use rustmote.Prelude.{ℕ, zero, suc, ◌∙◌, true, false, Option, List, [], ◌∷◌}
use rustmote.Text.{Text}
use rustmote.Time.{Duration}
use rustmote.Effect.Keeps.{
  Keeps, Keeps-bind, Keeps-both, Keeps-if, Keeps-pure, Keeps-raise, Keeps-gets, Keeps-modify,
}
use rustmote.Relay.Commands.{tcp_probe}
use rustmote.Relay.Remote.{Remote}
use rustmote.Relay.Health.{Settings, probe_all, health_loop, health_check}
use rustmote.Relay.Host.{IsHost, probes}
use rustmote.Relay.Host.Steps.{Pair}

module _ (R : Remote) {P : Remote.World R → Type 0}
    (probe : (port : ℕ) → Keeps P (R.exec (tcp_probe port)))
    (sleep : (d : Duration) (w : Remote.World R) → P w → P (R.sleep d w)) where
  pub Keeps-probe_all : (ports : List ℕ) → Keeps P (probe_all R ports)
  unfolding probe_all
  Keeps-probe_all [] = Keeps-pure true
  Keeps-probe_all (p ∷ ports) =
      Keeps-bind _ _ (probe p) (λ out. Keeps-if _ _ _ (Keeps-pure false) (Keeps-probe_all ports))

  Keeps-health_loop :
      (polls : ℕ) (interval : Duration) (deadline : ℕ) (ports : List ℕ)
      → Keeps P (health_loop R polls interval deadline ports)
  unfolding health_loop
  Keeps-health_loop zero interval deadline ports = Keeps-raise _
  Keeps-health_loop (suc polls) interval deadline ports =
      Keeps-bind _ _ (Keeps-probe_all ports) (λ all_up. Keeps-if all_up _ _ (Keeps-pure tt) (
        Keeps-bind _ _ (Keeps-gets _) (λ now. Keeps-if _ _ _ (Keeps-raise _) (
          Keeps-bind _ _ (Keeps-modify _ (sleep interval))
            (λ slept. Keeps-health_loop polls interval deadline ports)))))

  pub Keeps-health_check :
      (settings : Settings) (ports : List ℕ) → Keeps P (health_check R settings ports)
  unfolding health_check
  Keeps-health_check settings ports =
      Keeps-bind _ _ (Keeps-gets _) (λ start. Keeps-health_loop _ _ _ ports)

pub Keeps-health :
    (R : Remote) (host : IsHost R) (p q : Text) (f g : Option (List ℕ)) (settings : Settings)
    (ports : List ℕ)
    → Keeps (Pair R host p q f g) (health_check R settings ports)
Keeps-health R host p q f g settings ports =
    Keeps-health_check R
      (λ port.
        Keeps-both _ (host.calm_keeps _ p f (probes port)) (host.calm_keeps _ q g (probes port)))
      (λ d w before. (host.sleep_keeps d w p ∙ before.0, host.sleep_keeps d w q ∙ before.1))
      settings ports
