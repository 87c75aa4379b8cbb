-- ===== src/Relay/Lifecycle/Update/Refused.antt =====
-- `update` when it is refused or has nothing to do.
use rustmote.Prelude.{◌≡◌, false, not, ◌&&◌}
use rustmote.Error.{ok, err, relay_update_not_confirmed}
use rustmote.Effect.{◌>>=◌}
use rustmote.Effect.Hoare.{
  Anything, Hoare-kept, Hoare-step, Hoare, Hoare_ran, Hoare-bind, Hoare-if, Hoare-pure, Hoare-raise,
  Hoare-weaken,
}
use rustmote.Relay.Remote.{Remote}
use rustmote.Relay.Health.{Settings}
use rustmote.Relay.Lifecycle.{CheckUpdatesReport, any_update_available, UpdateOptions, UpdateReport}
use rustmote.Relay.Lifecycle.Check.Readonly.{IsSteady, Keeps-check_updates, Keeps-load_state}
use rustmote.Relay.Lifecycle.Update.{backup, deploy, verify, unchanged, perform, update}
use rustmote.Relay.Lifecycle.Gc.{gc_backups}

module _ (R : Remote) (settings : Settings) where
  -- Without the caller's consent and without a terminal to ask at, the update fails and touches
  -- nothing.
  update-not_confirmed :
      (opts : UpdateOptions) (w : R.World)
      → opts.assume_yes ≡ false
      → opts.is_tty ≡ false
      → update R settings opts w ≡ (err relay_update_not_confirmed, w)
  unfolding update ◌>>=◌
  update-not_confirmed opts w no_yes no_tty = rw (no_yes, no_tty)

module _ (R : Remote) (settings : Settings) {P : Remote.World R → Type 0}
    (steady : IsSteady R P) where
  -- A report that says nothing has changed comes from a state with `P`.
  abbrev Unchanged : UpdateReport → Remote.World R → Type 0
  Unchanged r w = r.changed ≡ false → P w

  Hoare-unchanged : (opts : UpdateOptions) → Hoare P (unchanged R settings opts) Unchanged Anything
  unfolding unchanged
  Hoare-unchanged opts =
      Hoare-bind {M = λ s w. P w} _ _ (Hoare-kept _ (Keeps-load_state R steady opts.install_path))
        (λ s. Hoare-pure _ (λ w p none_changed. p))

  Hoare-perform :
      (opts : UpdateOptions) (report : CheckUpdatesReport)
      → Hoare {W = Remote.World R}
          (λ w. Unit {0})
          (perform R settings opts report)
          Unchanged
          Anything
  unfolding perform
  Hoare-perform opts report = Hoare-step _ _ (λ at.
      Hoare-step (backup R settings opts at) _ (λ backup_dir.
        Hoare-step (deploy R settings opts at _) _ (λ new_state.
          Hoare-step (verify R settings opts.install_path backup_dir) _ (λ done.
            Hoare-step (gc_backups R opts.install_path at) _
              (λ gc_deleted. Hoare-pure _ (λ w p changed. cc))))))

  Hoare-update : (opts : UpdateOptions) → Hoare P (update R settings opts) Unchanged Anything
  unfolding update
  Hoare-update opts =
      Hoare-if (not opts.assume_yes && not opts.is_tty) _ _ (λ refused. Hoare-raise _ (λ w p. tt))
        (λ asked.
          Hoare-bind {M = λ r w. P w} _ _
            (Hoare-kept _ (Keeps-check_updates R steady opts.install_path))
            (λ report.
              Hoare-if (any_update_available report) _ _
                (λ newer.
                  Hoare-weaken _ (Hoare-perform opts report) (λ w p. tt) (λ r w h. h) (λ e w h. h))
                (λ none_newer. Hoare-unchanged opts)))

  -- An update that succeeds and reports no change has left true whatever looking at the host and
  -- asking the registry leave true.
  pub update-unchanged :
      (opts : UpdateOptions) (report : UpdateReport) (w w' : Remote.World R)
      → P w
      → update R settings opts w ≡ (ok report, w')
      → report.changed ≡ false
      → P w'
  update-unchanged opts report w w' before ran same = Hoare_ran (Hoare-update opts) before ran same
