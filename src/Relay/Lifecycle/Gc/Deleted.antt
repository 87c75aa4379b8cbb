-- ===== src/Relay/Lifecycle/Gc/Deleted.antt =====
-- crates/rustmote-core/src/relay_lifecycle/mod.rs, `gc_backups`: what is there after a collection.
use rustmote.Prelude.{
  ℕ, zero, suc, ◌-◌, ◌*◌, ◌≡◌, refl, sym, ap, ◌∙◌, Bool, true, false, ◌||◌, List, [], ◌∷◌, ◌++◌,
  map, filter, drop, All, inl, inr, arith, ◌==◌, ltb, Bool-cases, if◌then◌else◌,
}
use mathlib.Core.Path.{subst}
use rustmote.Prelude.Int.{ℤ, pos, ltb_ℤ, ◌-ℤ◌}
use rustmote.Text.{Text, str, lines, text_eq, starts_with}
use rustmote.Time.{DateTime}
use rustmote.Error.{ok}
use rustmote.Effect.{lift, >>=-ok, >>=-eq-ok, lift-eq-ok, pure-eq-ok}
use rustmote.Session.Exec.{ExecOutput, ok_for}
use rustmote.Relay.Commands.{validate_remote_path}
use rustmote.Relay.Commands.Validators.{IsRemotePath, validate_remote_path_iff}
use rustmote.Relay.Paths.{backups_path}
use rustmote.Relay.Backups.{Entry, read_entries, sort_entries, is_doomed}
use rustmote.Relay.Remote.{Remote}
use rustmote.Relay.Steps.{exec_ok}
use rustmote.Relay.Lifecycle.Gc.{find_command, delete_backup, gc_loop, gc_backups}

-- The paths of the entries that are older than the cutoff.
abbrev pub paths_older : ℤ → List Entry → List Text
paths_older cutoff es = map (λ (e : Entry). e.1) (filter (λ (e : Entry). ltb_ℤ e.0 cutoff) es)

-- What is to go of a listing at a time: of the backups in order, all but the first three that are
-- older than seven days.
abbrev pub expired : (now : ℤ) → (listing : Text) → List Text
expired now listing =
    paths_older (now -ℤ pos (7 * 24 * 3600)) (drop 3 (sort_entries (read_entries (lines listing))))

-- The paths that the loop comes upon, from an index on.
doomed_paths : ℤ → ℕ → List Entry → List Text
doomed_paths cutoff index [] = []
doomed_paths cutoff index (e ∷ es) =
    let rest = doomed_paths cutoff (suc index) es in
    if is_doomed cutoff index e then e.1 ∷ rest else rest

drop_none : (n : ℕ) → drop {A = Entry} n [] ≡ []
drop_none zero = refl
drop_none (suc n) = refl

doomed_paths-older :
    (cutoff : ℤ) (index : ℕ) (es : List Entry)
    → doomed_paths cutoff index es ≡ paths_older cutoff (drop (3 - index) es)
unfolding doomed_paths
doomed_paths-older cutoff index [] = ap (paths_older cutoff) (sym (drop_none (3 - index)))
doomed_paths-older cutoff index (e ∷ es) =
    let rest = doomed_paths-older cutoff (suc index) es in
    elim (Bool-cases (ltb index 3)) [
      | inl early ↦
          let one_more : 3 - index ≡ suc (3 - suc index) = ground arith in rw (early, one_more) rest
      | inr late ↦
          let none_more : 3 - index ≡ 0 = ground arith in
          let none_left : 3 - suc index ≡ 0 = ground arith in
          let after : doomed_paths cutoff (suc index) es ≡ paths_older cutoff es =
            rest ∙ ap (λ n. paths_older cutoff (drop n es)) none_left in
          rw (late, none_more)
            (elim (Bool-cases (ltb_ℤ e.0 cutoff)) [
              | inl old ↦ rw old (ap (λ qs. e.1 ∷ qs) after)
              | inr new ↦ rw new after
            ])
    ]

-- Neither the path itself nor below it.
abbrev pub IsApart : (p q : Text) → Type 0
IsApart p q = (text_eq q p || starts_with q (p ++ str "/")) ≡ false

module _ (R : Remote) where
  open R use {World, exec, lossy, timestamp}

  -- The command succeeds on the host.
  abbrev Succeeds : Text → World → World → Type 0
  Succeeds command w w' = (out : ExecOutput) × (exec command w ≡ (ok out, w')) × (out.exit_code ≡ 0)

  -- What `rm -rf` does where it succeeds: the path is gone, nothing comes into being, and what is not
  -- below the path stays.
  pub record IsRemover : Type 0 where
    pub there : Text → World → Bool
    pub gone :
        (p : Text) (w w' : World) (out : ExecOutput)
        → exec (str "rm -rf " ++ p) w ≡ (ok out, w')
        → out.exit_code ≡ 0
        → there p w' ≡ false
    pub none_made :
        (p : Text) (w w' : World) (out : ExecOutput)
        → exec (str "rm -rf " ++ p) w ≡ (ok out, w')
        → out.exit_code ≡ 0
        → (q : Text) → there q w ≡ false
        → there q w' ≡ false
    pub others_stay :
        (p : Text) (w w' : World) (out : ExecOutput)
        → exec (str "rm -rf " ++ p) w ≡ (ok out, w')
        → out.exit_code ≡ 0
        → (q : Text) → IsApart p q
        → there q w' ≡ there q w

  -- One removal after the other, each of a valid path and each successful.
  data Removes : List Text → World → World → Type 0 where
    done : {w : World} → Removes [] w w
    then_next :
        {p : Text} {ps : List Text} {w v w' : World}
        → IsRemotePath p
        → (out : ExecOutput) → exec (str "rm -rf " ++ p) w ≡ (ok out, v)
        → out.exit_code ≡ 0
        → Removes ps v w'
        → Removes (p ∷ ps) w w'

  -- The ends of a run, up to equality.
  Removes-ends :
      {ps qs : List Text} {w v v' : World} → ps ≡ qs → v ≡ v' → Removes ps w v → Removes qs w v'
  Removes-ends {w = w} same same' removed =
      subst (λ (x : List Text × World). Removes x.0 w x.1) (λ i. (same i, same' i)) removed

  module _ (H : IsRemover) where
    open H use {there, gone, none_made, others_stay}

    Removes-none_made :
        {ps : List Text} {w w' : World}
        → Removes ps w w'
        → (q : Text) → there q w ≡ false
        → there q w' ≡ false
    Removes-none_made done q h = h
    Removes-none_made (then_next {p = p} {w = w} {v = v} valid out ran exit rest) q h =
        Removes-none_made rest q (none_made p w v out ran exit q h)

    Removes-gone :
        {ps : List Text} {w w' : World}
        → Removes ps w w'
        → All (λ p. IsRemotePath p × (there p w' ≡ false)) ps
    Removes-gone done = tt
    Removes-gone (then_next {p = p} {w = w} {v = v} valid out ran exit rest) =
        ((valid, Removes-none_made rest p (gone p w v out ran exit)), Removes-gone rest)

    Removes-others :
        {ps : List Text} {w w' : World}
        → Removes ps w w'
        → (q : Text) → All (λ p. IsApart p q) ps
        → there q w' ≡ there q w
    Removes-others done q apart = refl
    Removes-others (then_next {p = p} {w = w} {v = v} valid out ran exit rest) q apart =
        Removes-others rest q apart.1 ∙ others_stay p w v out ran exit q apart.0

  exec_ok-Succeeds :
      (command : Text) (out : ExecOutput) (w w' : World)
      → exec_ok R command w ≡ (ok out, w')
      → Succeeds command w w'
  unfolding exec_ok ok_for
  exec_ok-Succeeds command out w w' ran =
      let (found, v, asked, checked) = >>=-eq-ok (exec command) _ ran in
      let (passed, same) = lift-eq-ok (ok_for lossy found command) checked in
      (found, asked ∙ ap (λ u. (ok found, u)) same, ground arith)

  -- A backup that is deleted had a valid path, and was removed.
  delete_backup-ran :
      (path : Text) (w w' : World)
      → delete_backup R path w ≡ (ok tt, w')
      → IsRemotePath path × Succeeds (str "rm -rf " ++ path) w w'
  unfolding delete_backup
  delete_backup-ran path w w' ran =
      let (p, v, checked, removed) = >>=-eq-ok (lift (validate_remote_path path)) _ ran in
      let (out, v', asked, left) = >>=-eq-ok (exec_ok R (str "rm -rf " ++ p)) _ removed in
      let (accepted, same) = lift-eq-ok (validate_remote_path path) checked in
      let (valid, is_path) = (validate_remote_path_iff path p).0 accepted in
      let (u, same') = pure-eq-ok tt left in
      let removal = exec_ok-Succeeds (str "rm -rf " ++ p) out v v' asked in
      (
        valid,
        subst (λ (x : Text × World × World). Succeeds (str "rm -rf " ++ x.0) x.1 x.2)
            (λ i. (sym is_path i, sym same i, same' i)) removal,
      )

  gc_loop-Removes :
      (cutoff : ℤ) (index : ℕ) (es : List Entry) (ps : List Text) (w w' : World)
      → gc_loop R cutoff index es w ≡ (ok ps, w')
      → (doomed_paths cutoff index es ≡ ps) × Removes ps w w'
  unfolding gc_loop doomed_paths
  gc_loop-Removes cutoff index [] ps w w' ran =
      let (nothing, same) = pure-eq-ok [] ran in (nothing, Removes-ends nothing same done)
  gc_loop-Removes cutoff index (e ∷ es) ps w w' ran = elim (Bool-cases (is_doomed cutoff index e)) [
    | inl doomed ↦
        let (u, v, deleted, went_on) = >>=-eq-ok (delete_backup R e.1) _ (rw doomed at ran) in
        let (qs, v', looped, left) = >>=-eq-ok (gc_loop R cutoff (suc index) es) _ went_on in
        let (reported, same) = pure-eq-ok (e.1 ∷ qs) left in
        let (valid, (out, asked, exit)) = delete_backup-ran e.1 w v deleted in
        let (planned, removed) = gc_loop-Removes cutoff (suc index) es qs v v' looped in
        (
          rw doomed (ap (λ rest. e.1 ∷ rest) planned ∙ reported),
          Removes-ends reported same (then_next valid out asked exit removed),
        )
    | inr kept ↦ rw kept (gc_loop-Removes cutoff (suc index) es ps w w' (rw kept at ran))
  ]

  gc_backups-Removes :
      (install_path : Text) (now : DateTime) (out : ExecOutput) (ps : List Text) (w v w' : World)
      → exec (find_command (backups_path install_path)) w ≡ (ok out, v)
      → out.exit_code ≡ 0
      → gc_backups R install_path now w ≡ (ok ps, w')
      → (ps ≡ expired (timestamp now) (lossy out.stdout)) × Removes ps v w'
  unfolding gc_backups
  gc_backups-Removes install_path now out ps w v w' listed exit ran =
      let (p, u, checked, then_listed) =
        >>=-eq-ok (lift (validate_remote_path (backups_path install_path))) _ ran in
      let (accepted, same) =
        lift-eq-ok (validate_remote_path (backups_path install_path)) checked in
      let is_path = ((validate_remote_path_iff (backups_path install_path) p).0 accepted).1 in
      let asked : exec (find_command p) u ≡ (ok out, v) =
        ap (λ (x : Text × World). exec (find_command x.0) x.1) (λ i. (sym is_path i, sym same i))
        ∙ listed in
      let after = sym (>>=-ok (exec (find_command p)) _ asked) ∙ then_listed in
      let passed : (out.exit_code == 0) ≡ true = ground arith in
      let (planned, removed) = gc_loop-Removes _ 0 _ ps v w' (rw passed at after) in
      (sym planned ∙ doomed_paths-older _ 0 _, removed)

  -- On a host whose `rm -rf` does what it is for: a collection that succeeds, after a listing that
  -- succeeded, reports the paths of the backups after the newest three that are older than seven
  -- days, in order; each of them is a valid path and is gone, and whatever is not below one of them
  -- is there as it was when the listing was made.
  pub gc_backups-deleted :
      (H : IsRemover) (install_path : Text) (now : DateTime) (out : ExecOutput) (ps : List Text)
      (w v w' : World)
      → exec (find_command (backups_path install_path)) w ≡ (ok out, v)
      → out.exit_code ≡ 0
      → gc_backups R install_path now w ≡ (ok ps, w')
      → (ps ≡ expired (timestamp now) (lossy out.stdout))
        × All (λ p. IsRemotePath p × (IsRemover.there H p w' ≡ false)) ps
        × ((q : Text) → All (λ p. IsApart p q) ps → IsRemover.there H q w' ≡ IsRemover.there H q v)
  gc_backups-deleted H install_path now out ps w v w' listed exit ran =
      let (reported, removed) = gc_backups-Removes install_path now out ps w v w' listed exit ran in
      (reported, Removes-gone H removed, Removes-others H removed)
