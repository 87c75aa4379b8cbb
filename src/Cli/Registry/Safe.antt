-- ===== src/Cli/Registry/Safe.antt =====
-- crates/rustmote-cli/src/commands/: the unsafe credential mode is entered with an acknowledgement
-- only.
use rustmote.Prelude.{
  ◌≡◌, ◌≢◌, sym, ap, ◌∙◌, arith, Bool, false, Option, List, [], ◌∷◌, All, Bool-cases, inl, inr,
}
use rustmote.Text.{Text}
use rustmote.Error.{ok}
use rustmote.Effect.{Io}
use rustmote.CredentialMode.{CredentialMode, unsafe, mode_eq}
use rustmote.Places.{Places, config_path}
use rustmote.Disk.{Disk, Format}
use rustmote.Disk.Atomic.{IsDisk, IsFormat}
use rustmote.Config.{Config}
use rustmote.Server.{RemoteServer}
use rustmote.Target.{Target}
use rustmote.Registry
use rustmote.Cli.{CliResult-cases, failed, done}
use rustmote.Cli.ConfigMode.{apply_mode}
use rustmote.Cli.ConfigMode.Gate.{parse_and_gate_mode_iff}
use rustmote.Cli.Registry.{
  changed, check_via, with_target, server_add, server_remove, target_add, target_remove,
}
use rustmote.Cli.Registry.OnDisk.{KeepsConfig, Stored, decided-Stored, edit-Stored, set_mode-Stored}
use rustmote.Cli.Registry.Sound.{changed-done}
use rustmote.Cli.Registry.Stored.{
  Edit, add_a_server, remove_a_server, add_a_target, remove_a_target, change_mode, run_edit,
  run_edits,
}

abbrev pub IsSafe : Config → Type 0
IsSafe cfg = cfg.general.credential_mode ≢ unsafe

-- `--i-understand-this-is-insecure`.
abbrev pub acknowledges : Edit → Bool
acknowledges (change_mode mode ack_unsafe) = ack_unsafe
acknowledges (add_a_server terminal now name host user ssh_port relay_port) = false
acknowledges (remove_a_server name) = false
acknowledges (add_a_target id label via) = false
acknowledges (remove_a_target id) = false

-- An operation that leaves the general settings alone.
changed-Safe :
    {A : Type 0} (text : Text) (op : Io Config A)
    → ((cfg : Config) → (op cfg).1.general ≡ cfg.general)
    → KeepsConfig IsSafe (λ cfg. changed text (op cfg))
changed-Safe text op alone cfg cfg' safe success now = safe (
    ap (λ g. g.credential_mode) (sym (alone cfg))
    ∙ ap (λ (c : Config). c.general.credential_mode) (changed-done text (op cfg) cfg' success)
    ∙ now)

add_server_alone :
    (s : RemoteServer) (cfg : Config) → (Registry.add_server s cfg).1.general ≡ cfg.general
unfolding Registry.add_server
add_server_alone s cfg = ground arith

add_target_alone : (t : Target) (cfg : Config) → (Registry.add_target t cfg).1.general ≡ cfg.general
unfolding Registry.add_target
add_target_alone t cfg = ground arith

remove_server_alone :
    (name : Text) (cfg : Config) → (Registry.remove_server name cfg).1.general ≡ cfg.general
unfolding Registry.remove_server
remove_server_alone name cfg = ground arith

remove_target_alone :
    (id : Text) (cfg : Config) → (Registry.remove_target id cfg).1.general ≡ cfg.general
unfolding Registry.remove_target
remove_target_alone id cfg = ground arith

with_target-Safe :
    (id : Text) (label via : Option Text) → KeepsConfig IsSafe (with_target id label via)
unfolding with_target
with_target-Safe id label via cfg cfg' safe success = elim (CliResult-cases (check_via cfg via)) [
  | inl (e, missing) ↦
      let refused : failed e ≡ done cfg' = rw (with_target, missing) at success in absurd cc
  | inr (u, there) ↦
      changed-Safe _ (Registry.add_target _) (add_target_alone _) cfg cfg' safe
        (rw (with_target, there) at success)
]

apply_mode-Safe :
    (m : CredentialMode) (cfg : Config) → m ≢ unsafe → IsSafe cfg → IsSafe (apply_mode m cfg).1
unfolding apply_mode
apply_mode-Safe m cfg other safe = elim (Bool-cases (mode_eq cfg.general.credential_mode m)) [
  | inl same ↦ rw (apply_mode, same) safe
  | inr new ↦ rw (apply_mode, new) other
]

module _ (D : Disk) (disk : IsDisk D) (F : Format Config) (format : IsFormat ◌≡◌ F)
    (places : Places) (path : Text) (path_is : config_path places ≡ ok path) where
  -- The next load of the configuration gives one that is not in the unsafe mode.
  abbrev pub StoredSafe : Disk.World D → Type 0
  StoredSafe = Stored D disk F format places path path_is IsSafe

  run_edit-StoredSafe :
      (e : Edit) (w : Disk.World D)
      → acknowledges e ≡ false
      → StoredSafe w
      → StoredSafe (run_edit D F places e w).1
  unfolding server_add server_remove target_add target_remove
  run_edit-StoredSafe (add_a_server terminal now name host user ssh_port relay_port) w unasked
        stored =
      decided-Stored D disk F format places path path_is IsSafe _ _ w stored (λ u valid.
        decided-Stored D disk F format places path path_is IsSafe _ _ w stored (λ user' known.
          edit-Stored D disk F format places path path_is IsSafe _ w
            (changed-Safe _ (Registry.add_server _) (add_server_alone _)) stored))
  run_edit-StoredSafe (remove_a_server name) w unasked stored =
      edit-Stored D disk F format places path path_is IsSafe _ w
        (changed-Safe _ (Registry.remove_server name) (remove_server_alone name)) stored
  run_edit-StoredSafe (add_a_target id label via) w unasked stored =
      decided-Stored D disk F format places path path_is IsSafe _ _ w stored (λ made valid.
        edit-Stored D disk F format places path path_is IsSafe _ w (with_target-Safe id label via)
          stored)
  run_edit-StoredSafe (remove_a_target id) w unasked stored =
      edit-Stored D disk F format places path path_is IsSafe _ w
        (changed-Safe _ (Registry.remove_target id) (remove_target_alone id)) stored
  run_edit-StoredSafe (change_mode mode ack_unsafe) w unasked stored =
      set_mode-Stored D disk F format places path path_is IsSafe mode ack_unsafe w
        (λ m passed cfg safe.
          let gate = ((parse_and_gate_mode_iff mode ack_unsafe m).0 passed).1 in
          apply_mode-Safe m cfg (λ now. let given = gate now in cc) safe)
        stored

  -- Where a save that succeeds is read back and one that fails leaves the file, and the stored
  -- configuration is not in the unsafe mode: after any commands that add or remove servers and
  -- targets or change the mode, each of which may succeed or fail at any step and none of which has
  -- the acknowledgement of the risk, the stored configuration is not in the unsafe mode.
  pub run_edits-StoredSafe :
      (es : List Edit) (w : Disk.World D)
      → All (λ e. acknowledges e ≡ false) es
      → StoredSafe w
      → StoredSafe (run_edits D F places es w)
  run_edits-StoredSafe [] w unasked stored = stored
  run_edits-StoredSafe (e ∷ rest) w (first, others) stored =
      run_edits-StoredSafe rest (run_edit D F places e w).1 others
        (run_edit-StoredSafe e w first stored)
