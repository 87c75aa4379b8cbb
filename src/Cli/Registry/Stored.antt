-- ===== src/Cli/Registry/Stored.antt =====
-- crates/rustmote-cli/src/commands/server.rs, target.rs and config.rs: sequences of their commands.
use rustmote.Prelude.{◌≡◌, Bool, ℕ, Option, List, [], ◌∷◌}
use rustmote.Text.{Text}
use rustmote.Time.{DateTime}
use rustmote.Net.{IpAddr}
use rustmote.Error.{ok}
use rustmote.Places.{Places, config_path}
use rustmote.Disk.{Disk, Format}
use rustmote.Disk.Atomic.{IsDisk, IsFormat}
use rustmote.Config.{Config}
use rustmote.Server.{validate_name, new_server}
use rustmote.Viewer
use rustmote.Viewer.Target.{new-IsTargetId}
use rustmote.Cli.{with_context-done}
use rustmote.Cli.Flow.{CliIo}
use rustmote.Cli.ConfigMode.{set_mode}
use rustmote.Cli.Registry.{Terminal, server_add, server_remove, target_add, target_remove}
use rustmote.Cli.Registry.OnDisk.{Stored, decided-Stored, edit-Stored, set_mode-Stored}
use rustmote.Cli.Registry.Sound.{
  IsSound, add_server-KeepsSound, remove_server-KeepsSound, with_target-KeepsSound,
  remove_target-KeepsSound, apply_mode-IsSound,
}

-- The commands that edit the configuration, with their arguments and what the user types.
pub data Edit : Type 0 where
  add_a_server :
      (terminal : Terminal) (now : DateTime) (name : Text) (host : IpAddr) (user : Option Text)
      (ssh_port relay_port : ℕ)
      → Edit
  remove_a_server : (name : Text) → Edit
  add_a_target : (id : Text) (label via : Option Text) → Edit
  remove_a_target : (id : Text) → Edit
  change_mode : (mode : Text) (ack_unsafe : Bool) → Edit

module _ (D : Disk) (F : Format Config) (places : Places) where
  abbrev pub run_edit : Edit → CliIo (Disk.World D) (Unit {0})
  run_edit (add_a_server terminal now name host user ssh_port relay_port) =
      server_add D F places terminal now name host user ssh_port relay_port
  run_edit (remove_a_server name) = server_remove D F places name
  run_edit (add_a_target id label via) = target_add D F places id label via
  run_edit (remove_a_target id) = target_remove D F places id
  run_edit (change_mode mode ack_unsafe) = set_mode D F places mode ack_unsafe

  -- One command after another, whether they succeed or fail.
  abbrev pub run_edits : List Edit → Disk.World D → Disk.World D
  run_edits [] w = w
  run_edits (e ∷ rest) w = run_edits rest (run_edit e w).1

module _ (D : Disk) (disk : IsDisk D) (F : Format Config) (format : IsFormat ◌≡◌ F)
    (places : Places) (path : Text) (path_is : config_path places ≡ ok path) where
  -- The next load of the configuration gives a sound one.
  abbrev pub StoredSound : Disk.World D → Type 0
  StoredSound = Stored D disk F format places path path_is IsSound

  run_edit-StoredSound :
      (e : Edit) (w : Disk.World D) → StoredSound w → StoredSound (run_edit D F places e w).1
  unfolding server_add server_remove target_add target_remove new_server
  run_edit-StoredSound (add_a_server terminal now name host user ssh_port relay_port) w stored =
      decided-Stored D disk F format places path path_is IsSound _ _ w stored (λ u valid.
        decided-Stored D disk F format places path path_is IsSound _ _ w stored (λ user' known.
          edit-Stored D disk F format places path path_is IsSound _ w
            (add_server-KeepsSound _ _ (with_context-done _ (validate_name name) valid)) stored))
  run_edit-StoredSound (remove_a_server name) w stored =
      edit-Stored D disk F format places path path_is IsSound _ w (remove_server-KeepsSound _ name)
        stored
  run_edit-StoredSound (add_a_target id label via) w stored =
      decided-Stored D disk F format places path path_is IsSound _ _ w stored (λ made valid.
        edit-Stored D disk F format places path path_is IsSound _ w
          (with_target-KeepsSound id label via
            (new-IsTargetId id made (with_context-done _ (Viewer.new id) valid)).1)
          stored)
  run_edit-StoredSound (remove_a_target id) w stored =
      edit-Stored D disk F format places path path_is IsSound _ w (remove_target-KeepsSound _ id)
        stored
  run_edit-StoredSound (change_mode mode ack_unsafe) w stored =
      set_mode-Stored D disk F format places path path_is IsSound mode ack_unsafe w
        (λ m passed. apply_mode-IsSound m) stored

  -- Where a save that succeeds is read back and one that fails leaves the file, and the stored
  -- configuration is sound: after any commands that add or remove servers and targets or change the mode, each of which
  -- may succeed or fail at any step, the stored configuration is sound.
  pub run_edits-StoredSound :
      (es : List Edit) (w : Disk.World D) → StoredSound w → StoredSound (run_edits D F places es w)
  run_edits-StoredSound [] w stored = stored
  run_edits-StoredSound (e ∷ rest) w stored =
      run_edits-StoredSound rest (run_edit D F places e w).1 (run_edit-StoredSound e w stored)
