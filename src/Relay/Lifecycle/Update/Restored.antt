-- ===== src/Relay/Lifecycle/Update/Restored.antt =====
-- An update that ends with the failure of the health check: what the rollback leaves on the host.
use rustmote.Prelude.{◌≡◌, refl, sym, false, not, ◌&&◌, Option, some, List, ℕ}
use rustmote.Text.{Text, str}
use rustmote.Error.{RustmoteError, Result, ok, err, relay_health_check_failed}
use rustmote.Effect.{Io, pure, ◌>>◌}
use rustmote.Effect.Keeps.{Keeps-both}
use rustmote.Effect.Hoare.{
  Anything, Outcome, Hoare, Hoare-any, Hoare-attempt, Hoare-bind, Hoare-fact, Hoare-gets, Hoare-if,
  Hoare-kept, Hoare-Keeps, Hoare-pure, Hoare-raise, Hoare-weaken,
}
use rustmote.Effect.Fails.{Fails, Fails-bind, Fails-pure, Hoare-Fails}
use rustmote.Relay.Commands.{copy_file, compose_up}
use rustmote.Relay.Paths.{posix_join, compose_path, state_path, backup_dir_for}
use rustmote.Relay.Remote.{Remote}
use rustmote.Relay.Steps.{exec_built}
use rustmote.Relay.Health.{Settings}
use rustmote.Relay.Lifecycle.{CheckUpdatesReport, UpdateOptions, any_update_available}
use rustmote.Relay.Lifecycle.Check.Readonly.{Keeps-check_updates}
use rustmote.Relay.Lifecycle.Rollback.{rollback}
use rustmote.Relay.Lifecycle.Update.{recover, verify, perform, unchanged, update}
use rustmote.Relay.Lifecycle.Update.BackedUp.{Holds, Hoare-backup, Hoare-deploy}
use rustmote.Relay.Host.{IsHost, IsOther, compose, state}
use rustmote.Relay.Host.Apart.{compose-ne-state}
use rustmote.Relay.Host.Checked.{Keeps-health}
use rustmote.Relay.Host.Refused.{Refuses-compose_up}
use rustmote.Relay.Host.Steps.{
  host-IsSteady, Fails-check_updates, Fails-load_state, Fails-gc_backups, Hoare-copied,
  Hoare-kept_by,
}

module _ (R : Remote) (settings : Settings) (host : IsHost R) where
  abbrev World : Type 0
  World = Remote.World R

  module _ (install_path dir : Text) (c s : Option (List ℕ)) where
    abbrev Saved : World → Type 0
    Saved = Holds R settings host c s dir

    abbrev Restored : World → Type 0
    Restored = Holds R settings host c s install_path

    abbrev RestoredIf : RustmoteError → World → Type 0
    RestoredIf e w = e ≡ relay_health_check_failed → Restored w

    other : (e : RustmoteError) (w : World) → IsOther e → RestoredIf e w
    other e w differs same = absurd (differs same)

    Hoare-up :
        Hoare Restored
          (exec_built R (compose_up install_path))
          (λ out w. Restored w)
          (λ e w. IsOther e)
    unfolding compose_path state_path
    Hoare-up = Hoare-kept_by R host _ _ c s _ (Refuses-compose_up install_path) (λ command e.
        Keeps-both _ (host.up_keeps install_path command _ c e compose)
          (host.up_keeps install_path command _ s e state))

    Hoare-copies_back :
        {m : Io World (Unit {0})}
        → Hoare Restored m (λ u w. Restored w) RestoredIf
        → Hoare Saved
            (do
              exec_built R (
                  copy_file (posix_join dir (str "docker-compose.yml")) (compose_path install_path))
              exec_built R (
                  copy_file (posix_join dir (str ".rustmote-state.toml")) (state_path install_path))
              m)
            (λ u w. Restored w)
            RestoredIf
    unfolding compose_path state_path
    Hoare-copies_back rest =
        Hoare-bind _ _
          (Hoare-weaken _ (Hoare-copied R host _ _ _ c s (compose-ne-state install_path dir))
            (λ w saved. saved) (λ out w both. both) other)
          (λ out.
            Hoare-bind _ _
              (Hoare-weaken _
                (Hoare-copied R host _ _ _ s c
                  (λ same. compose-ne-state install_path install_path (sym same)))
                (λ w both. (both.1, both.0)) (λ out w both. (both.1, both.0)) other)
              (λ out. rest))

    Hoare-rollback :
        Hoare Saved (rollback R settings install_path dir) (λ u w. Restored w) RestoredIf
    unfolding rollback
    Hoare-rollback = Hoare-copies_back (
        Hoare-bind _ _ (Hoare-weaken _ Hoare-up (λ w before. before) (λ out w after. after) other)
          (λ out.
            Hoare-weaken _ (Hoare-Keeps _ (Keeps-health R host _ _ c s settings _))
              (λ w before. before) (λ u w after. after) (λ e w after same. after)))

    Hoare-recover :
        (e : RustmoteError)
        → Hoare Saved (recover R settings install_path (some dir) e) Anything RestoredIf
    unfolding recover
    Hoare-recover e = Hoare-bind _ _ Hoare-rollback (λ u. Hoare-raise _ (λ w after same. after))

    abbrev settled : Result (Unit {0}) → Io World (Unit {0})
    settled r = elim r [ ok u ↦ pure tt | err e ↦ recover R settings install_path (some dir) e ]

    Hoare-verify : Hoare Saved (verify R settings install_path (some dir)) Anything RestoredIf
    unfolding verify
    Hoare-verify =
        Hoare-bind {M = λ r w. Saved w} _ _
          (Hoare-attempt _ (Hoare-Keeps _ (Keeps-health R host _ _ c s settings _)) left) after
      where
        left :
            (r : Result (Unit {0})) (w : World)
            → Outcome (λ u w. Saved w) (λ e w. Saved w) r w
            → Saved w
        left (ok u) w saved = saved
        left (err e) w saved = saved

        after : (r : Result (Unit {0})) → Hoare Saved (settled r) Anything RestoredIf
        after (ok u) = Hoare-pure tt (λ w saved. tt)
        after (err e) = Hoare-recover e

  module _ (opts : UpdateOptions) (c s : Option (List ℕ)) where
    abbrev Before : World → Type 0
    Before = Restored opts.install_path opts.install_path c s

    abbrev BeforeIf : RustmoteError → World → Type 0
    BeforeIf = RestoredIf opts.install_path opts.install_path c s

    -- A step with failures of its own, of which nothing else is asked.
    Hoare-own :
        {A : Type 0} {P : World → Type 0} (m : Io World A)
        → Fails IsOther m
        → Hoare P m Anything BeforeIf
    Hoare-own m fails =
        Hoare-weaken m (Hoare-Fails m (Hoare-any m (λ a w. tt) (λ e w. tt)) fails)
          (λ w before. before) (λ a w u. tt) (other opts.install_path opts.install_path c s)

    Hoare-perform :
        (report : CheckUpdatesReport)
        → opts.skip_backup ≡ false
        → Hoare Before (perform R settings opts report) Anything BeforeIf
    unfolding perform
    Hoare-perform report wanted =
        let from = opts.install_path in
        Hoare-bind _ _ (Hoare-gets _ (λ w before. before)) (λ at.
          Hoare-bind _ _
            (Hoare-weaken _ (Hoare-backup R settings host c s opts at wanted) (λ w before. before)
              (λ dir w after. after) (other from from c s))
            (λ backup_dir. Hoare-fact _ (λ made. rw made (
              Hoare-bind _ _
                (Hoare-weaken _ (Hoare-deploy R settings host c s opts at _ (R.format at))
                  (λ w before. before) (λ new_state w after. after) (other from from c s))
                (λ new_state.
                  Hoare-bind _ _ (Hoare-verify from (backup_dir_for from (R.format at)) c s)
                    (λ healthy. Hoare-own _ (
                      Fails-bind _ _ (Fails-gc_backups R host from at)
                        (λ gc_deleted. Fails-pure _))))))))

    Hoare-update :
        opts.skip_backup ≡ false → Hoare Before (update R settings opts) Anything BeforeIf
    unfolding update unchanged
    Hoare-update wanted =
        let from = opts.install_path in
        Hoare-if (not opts.assume_yes && not opts.is_tty) _ _
          (λ refused. Hoare-raise _ (λ w before same. absurd cc))
          (λ asked.
            Hoare-bind _ _
              (Hoare-weaken _
                (Hoare-Fails _
                  (Hoare-kept _ (Keeps-check_updates R (host-IsSteady R host _ _ c s) from))
                  (Fails-check_updates R host from))
                (λ w before. before) (λ report w after. after) (other from from c s))
              (λ report.
                Hoare-if (any_update_available report) _ _ (λ newer. Hoare-perform report wanted)
                  (λ none_newer.
                    Hoare-own _
                      (Fails-bind _ _ (Fails-load_state R host from) (λ state. Fails-pure _)))))

  -- Where commands change the files that they are to change and no other of these, and the session,
  -- the registry client and the TOML format have failures of their own: an update that is to make a
  -- backup and that ends with the failure of the health check leaves the compose file and the state
  -- file as they were when it began, whether the check after the rollback failed too or not.
  pub update-restores :
      (opts : UpdateOptions) (w w' : World)
      → opts.skip_backup ≡ false
      → update R settings opts w ≡ (err relay_health_check_failed, w')
      → (host.file w' (compose_path opts.install_path)
          ≡ host.file w (compose_path opts.install_path))
        × (host.file w' (state_path opts.install_path) ≡ host.file w (state_path opts.install_path))
  unfolding compose_path state_path
  update-restores opts w w' wanted failed =
      rw failed at ((Hoare-update opts _ _ wanted).at w (refl, refl)) refl
