-- ===== src/Relay/Host/Steps.antt =====
-- What the steps of the lifecycle keep on a host, and what they fail with.
use rustmote.Prelude.{
  ℕ, suc, ◌≡◌, ◌≢◌, not, Option, List, [], ◌∷◌, arith, ◌==◌, Bool-cases, inl, inr,
}
use rustmote.Prelude.Int.{ℤ}
use rustmote.Text.{Text}
use rustmote.Time.{DateTime}
use rustmote.Error.{Result, ok, relay_not_installed}
use rustmote.Effect.Keeps.{Keeps, Keeps-both, Keeps-lift, Keeps-bind}
use rustmote.Effect.Hoare.{
  Anything, Hoare, Hoare-at_hand, Hoare-bind, Hoare-fact, Hoare-kept, Hoare-lift, Hoare-both,
  Hoare-weaken, Outcome,
}
use rustmote.Effect.Fails.{
  Refuses, Fails, Fails-pure, Fails-lift, Fails-raise, Fails-if, Fails-bind, Hoare-Fails,
}
use rustmote.Session.Exec.{ExecOutput, ok_for}
use rustmote.Relay.State.{ImagePin}
use rustmote.Relay.Commands.{copy_file}
use rustmote.Relay.Paths.{state_path, backups_path}
use rustmote.Relay.Remote.{Remote}
use rustmote.Relay.Steps.{exec_ok, exec_built, exec_raw, path_exists, read_file, load_state}
use rustmote.Relay.Backups.{Entry, is_doomed}
use rustmote.Relay.Lifecycle.Gc.{delete_backup, gc_loop, gc_backups}
use rustmote.Relay.Lifecycle.Check.{check_pin, check_pins, check_updates}
use rustmote.Relay.Lifecycle.Check.Readonly.{IsSteady, Keeps-built}
use rustmote.Relay.Host.{IsOther, IsHost, looks}
use rustmote.Relay.Host.Refused.{
  Refuses-path, Refuses-ok_for, Refuses-test_file, Refuses-cat_file, Refuses-copy_file,
}

module _ (R : Remote) (host : IsHost R) where
  abbrev World : Type 0
  World = Remote.World R

  -- Two files.
  abbrev pub Pair : (p q : Text) (f g : Option (List ℕ)) → World → Type 0
  Pair p q f g w = (host.file w p ≡ f) × (host.file w q ≡ g)

  pub host-IsSteady : (p q : Text) (f g : Option (List ℕ)) → IsSteady R (Pair p q f g)
  host-IsSteady p q f g = record {
    look = λ command look.
        Keeps-both _ (host.calm_keeps command p f (looks look))
          (host.calm_keeps command q g (looks look));
    list_tags = λ repo. Keeps-both _ (host.tags_keep repo p f) (host.tags_keep repo q g);
    resolve_digest =
        λ repo tag. Keeps-both _ (host.digest_keeps repo tag p f) (host.digest_keeps repo tag q g);
  }

  Fails-exec_ok : (command : Text) → Fails IsOther (exec_ok R command)
  unfolding exec_ok
  Fails-exec_ok command =
      Fails-bind _ _ (host.exec_fails command)
        (λ out. Fails-lift _ (Refuses-ok_for R.lossy out command))

  pub Fails-exec_built :
      (built : Result Text) → Refuses IsOther built → Fails IsOther (exec_built R built)
  Fails-exec_built built refused = Fails-bind _ _ (Fails-lift built refused) Fails-exec_ok

  pub Fails-exec_raw :
      (built : Result Text) → Refuses IsOther built → Fails IsOther (exec_raw R built)
  Fails-exec_raw built refused = Fails-bind _ _ (Fails-lift built refused) host.exec_fails

  pub Fails-load_state : (install_path : Text) → Fails IsOther (load_state R install_path)
  unfolding load_state path_exists read_file
  Fails-load_state install_path =
      let p = state_path install_path in
      Fails-bind _ _ (Fails-bind _ _ (Fails-exec_raw _ (Refuses-test_file p)) (λ out. Fails-pure _))
        (λ installed.
          Fails-if (not installed) _ _ (Fails-raise (relay_not_installed install_path) (λ same. cc))
            (Fails-bind _ _ (Fails-exec_built _ (Refuses-cat_file p))
              (λ out. Fails-lift _ (host.from_toml_refuses _ p))))

  Fails-check_pins : (pins : List ImagePin) → Fails IsOther (check_pins R pins)
  unfolding check_pins check_pin
  Fails-check_pins [] = Fails-pure []
  Fails-check_pins (pin ∷ pins) =
      Fails-bind _ _
        (Fails-bind _ _ (host.tags_fail pin.repo)
          (λ tags. Fails-bind _ _ (host.digest_fails pin.repo _) (λ d. Fails-pure _)))
        (λ u. Fails-bind _ _ (Fails-check_pins pins) (λ us. Fails-pure (u ∷ us)))

  pub Fails-check_updates : (install_path : Text) → Fails IsOther (check_updates R install_path)
  unfolding check_updates
  Fails-check_updates install_path =
      Fails-bind _ _ (Fails-load_state install_path)
        (λ s. Fails-bind _ _ (Fails-check_pins s.images) (λ us. Fails-pure _))

  pub Keeps-exec_built :
      (p q : Text) (f g : Option (List ℕ)) (built : Result Text)
      → ((command : Text) → built ≡ ok command → Keeps (Pair p q f g) (R.exec command))
      → Keeps (Pair p q f g) (exec_built R built)
  unfolding exec_ok
  Keeps-exec_built p q f g built kept =
      Keeps-built R (host-IsSteady p q f g) built _
        (λ command e. Keeps-bind _ _ (kept command e) (λ out. Keeps-lift _))

  Fails-gc_loop :
      (cutoff : ℤ) (index : ℕ) (es : List Entry) → Fails IsOther (gc_loop R cutoff index es)
  unfolding gc_loop delete_backup
  Fails-gc_loop cutoff index [] = Fails-pure []
  Fails-gc_loop cutoff index (e ∷ es) =
      let rest = Fails-gc_loop cutoff (suc index) es in
      Fails-if (is_doomed cutoff index e) _ _
        (Fails-bind _ _
          (Fails-bind _ _ (Fails-lift _ (Refuses-path e.1))
            (λ p. Fails-bind _ _ (Fails-exec_ok _) (λ out. Fails-pure tt)))
          (λ u. Fails-bind _ _ rest (λ ps. Fails-pure _)))
        rest

  pub Fails-gc_backups :
      (install_path : Text) (now : DateTime) → Fails IsOther (gc_backups R install_path now)
  unfolding gc_backups
  Fails-gc_backups install_path now =
      Fails-bind _ _ (Fails-lift _ (Refuses-path (backups_path install_path))) (λ p.
        Fails-bind _ _ (host.exec_fails _)
          (λ out. Fails-if _ _ _ (Fails-pure []) (Fails-gc_loop _ 0 _)))

  -- A built command that keeps two files.
  pub Hoare-kept_by :
      (p q : Text) (f g : Option (List ℕ)) (built : Result Text)
      → Refuses IsOther built
      → ((command : Text) → built ≡ ok command → Keeps (Pair p q f g) (R.exec command))
      → Hoare (Pair p q f g) (exec_built R built) (λ out w. Pair p q f g w) (λ e w. IsOther e)
  Hoare-kept_by p q f g built refused kept =
      Hoare-Fails _ (Hoare-kept _ (Keeps-exec_built p q f g built kept))
        (Fails-exec_built built refused)

  -- A built command with an effect where its exit code is 0.
  pub Hoare-effect :
      {P Q : World → Type 0} (built : Result Text)
      → ((command : Text)
          → built ≡ ok command
          → Hoare P (R.exec command) (λ out w. out.exit_code ≡ 0 → Q w) Anything)
      → Hoare P (exec_built R built) (λ out w. Q w) Anything
  unfolding exec_ok ok_for
  Hoare-effect {Q = Q} built effect =
      Hoare-bind _ _ (Hoare-at_hand built (λ e w before. tt)) (λ command.
        Hoare-fact _
          (λ e. Hoare-bind _ _ (effect command e) (λ out. Hoare-lift _ (judged out command))))
    where
      judged :
          (out : ExecOutput) (command : Text) (w : World)
          → (out.exit_code ≡ 0 → Q w)
          → Outcome (λ o w. Q w) Anything (ok_for R.lossy out command) w
      judged out command w after = elim (Bool-cases (out.exit_code == 0)) [
        | inl is_zero ↦ rw is_zero (after (ground arith))
        | inr other ↦ rw other tt
      ]

  -- A file is copied, and another is kept.
  pub Hoare-copied :
      (src dst other : Text) (f g : Option (List ℕ))
      → dst ≢ other
      → Hoare
          (Pair src other f g)
          (exec_built R (copy_file src dst))
          (λ out w. Pair dst other f g w)
          (λ e w. IsOther e)
  Hoare-copied src dst other f g ne =
      Hoare-Fails _
        (Hoare-effect (copy_file src dst) (λ command e.
          Hoare-weaken _
            (Hoare-both _ (host.copies src dst command f e)
              (Hoare-kept _ (host.copy_keeps src dst command other g e ne)))
            (λ w before. before) (λ out w after is_zero. (after.0 is_zero, after.1))
            (λ why w failed. tt)))
        (Fails-exec_built _ (Refuses-copy_file src dst))
