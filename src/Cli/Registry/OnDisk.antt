-- ===== src/Cli/Registry/OnDisk.antt =====
-- crates/rustmote-cli/src/commands/server.rs, target.rs and config.rs: what a command that loads the
-- configuration, changes it and saves it leaves on disk, whether it succeeds or fails.
use rustmote.Prelude.{◌≡◌, sym, ◌∙◌, inl, inr, Bool, true, false}
use mathlib.Core.Path.{subst}
use rustmote.Text.{Text, str}
use rustmote.Error.{Result, ok, err}
use rustmote.Effect
use rustmote.Places.{Places, config_path}
use rustmote.CredentialMode.{CredentialMode}
use rustmote.Disk
use rustmote.Disk.{Disk, Format}
use rustmote.Disk.Atomic.{IsDisk, IsFormat, Saves, load_from_same}
use rustmote.Config.{Config, default_config}
use rustmote.Config.Store.{load, load_from, save, save_to}
use rustmote.Config.Store.Saved.{save_to-Saves}
use rustmote.Cli.{CliResult, CliResult-cases, done}
use rustmote.Cli.Flow.{
  CliIo, Leaves-give, decide, on_disk, within, within-ok, decide-done, decide-failed, >>=-done,
  ◌>>=◌,
}
use rustmote.Cli.ConfigMode.{parse_and_gate_mode, apply_mode, save_if_changed, set_mode}
use rustmote.Cli.Registry.{edit}

-- A change that, where it succeeds, keeps `P`.
abbrev pub KeepsConfig : (Config → Type 0) → (Config → CliResult Config) → Type 0
KeepsConfig P change = (cfg cfg' : Config) → P cfg → change cfg ≡ done cfg' → P cfg'

module _ (D : Disk) (disk : IsDisk D) (F : Format Config) (format : IsFormat ◌≡◌ F)
    (places : Places) (path : Text) (path_is : config_path places ≡ ok path)
    (P : Config → Type 0) where
  -- The next load of the configuration gives one with `P`.
  abbrev pub Stored : Disk.World D → Type 0
  Stored w = (cfg : Config) × (Disk.load_from D F default_config path w ≡ (ok cfg, w)) × P cfg

  loads : (w : Disk.World D) → load D F places w ≡ Disk.load_from D F default_config path w
  unfolding load load_from Effect.◌>>=◌
  loads w = rw path_is

  saves : (cfg : Config) (w : Disk.World D) → save D F places cfg w ≡ save_to D F cfg path w
  unfolding save Effect.◌>>=◌
  saves cfg w = rw path_is

  -- From a state where the stored configuration has `P`, one that is saved with `P` is the new one or the old one.
  saved-Stored :
      (cfg : Config) (w : Disk.World D) → P cfg → Stored w → Stored (save D F places cfg w).1
  saved-Stored cfg w sound (old, loads_old, old_known) = rw (saves cfg w) (
      by_outcome (save_to D F cfg path w).0 (save_to D F cfg path w).1
        (save_to-Saves D disk F format path cfg w))
    where
      by_outcome :
          (r : Result (Unit {0})) (v : Disk.World D)
          → Saves D disk F format default_config path cfg (disk.file w path) (r, v)
          → Stored v
      by_outcome (ok u) v (back, loads_back, same) = (back, loads_back, subst P same sound)
      by_outcome (err e) v same =
          (old, (load_from_same D disk F default_config path w w old loads_old).1 v same, old_known)

  -- A decision that fails ends the command, and one that succeeds goes on.
  pub decided-Stored :
      {A : Type 0} (r : CliResult A) (next : A → CliIo (Disk.World D) (Unit {0})) (w : Disk.World D)
      → Stored w
      → ((a : A) → r ≡ done a → Stored (next a w).1)
      → Stored ((decide r >>= next) w).1
  decided-Stored r next w stored then_next = elim (CliResult-cases r) [
    | inl (e, refused) ↦
        subst (λ (x : CliResult (Unit {0}) × Disk.World D). Stored x.1)
          (sym (decide-failed r next w refused)) stored
    | inr (a, is_done) ↦
        subst (λ (x : CliResult (Unit {0}) × Disk.World D). Stored x.1)
          (sym (decide-done r next w is_done)) (then_next a is_done)
  ]

  pub edit-Stored :
      (change : Config → CliResult Config) (w : Disk.World D)
      → KeepsConfig P change
      → Stored w
      → Stored (edit D F places change w).1
  unfolding edit within
  edit-Stored change w keeps (cfg, loads_cfg, sound) =
      let loaded =
        within-ok (λ (v : Disk.World D). v) (λ (v u : Disk.World D). v) (str "loading config")
          (load D F places) {w = w} (loads w ∙ loads_cfg) in
      let to_change = >>=-done _ _ loaded in
      subst (λ (x : CliResult (Unit {0}) × Disk.World D). Stored x.1) (sym to_change)
        (decided-Stored (change cfg) (λ cfg'. on_disk (str "saving config") (save D F places cfg'))
          w (cfg, loads_cfg, sound)
          (λ cfg' is_changed.
            saved-Stored cfg' w (keeps cfg cfg' sound is_changed) (cfg, loads_cfg, sound)))

  saved_or_not-Stored :
      (changed : Bool) (cfg : Config) (w : Disk.World D)
      → P cfg
      → Stored w
      → Stored (save_if_changed D F places (changed, cfg) w).1
  unfolding save_if_changed within
  saved_or_not-Stored true cfg w known stored = saved-Stored cfg w known stored
  saved_or_not-Stored false cfg w known stored =
      subst Stored (sym ((Leaves-give {part = λ (v : Disk.World D). v} tt).at w)) stored

  -- The change of the mode.
  pub set_mode-Stored :
      (mode : Text) (ack_unsafe : Bool) (w : Disk.World D)
      → ((m : CredentialMode)
          → parse_and_gate_mode mode ack_unsafe ≡ done m
          → (cfg : Config) → P cfg
          → P (apply_mode m cfg).1)
      → Stored w
      → Stored (set_mode D F places mode ack_unsafe w).1
  unfolding set_mode
  set_mode-Stored mode ack_unsafe w keeps (cfg, loads_cfg, known) =
      decided-Stored (parse_and_gate_mode mode ack_unsafe) _ w (cfg, loads_cfg, known)
        (λ m passed.
          let loaded =
            within-ok (λ (v : Disk.World D). v) (λ (v u : Disk.World D). v) (str "loading config")
              (load D F places) {w = w} (loads w ∙ loads_cfg) in
          subst (λ (x : CliResult (Unit {0}) × Disk.World D). Stored x.1)
            (sym (>>=-done _ _ loaded))
            (saved_or_not-Stored (apply_mode m cfg).0 (apply_mode m cfg).1 w
              (keeps m passed cfg known) (cfg, loads_cfg, known)))
