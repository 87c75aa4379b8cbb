-- ===== src/Relay/Lifecycle/Gc.antt =====
-- `RelayLifecycle::gc_backups`.
pub mod Deleted
use rustmote.Prelude.{ℕ, suc, ◌*◌, not, List, [], ◌∷◌, ◌++◌, ◌==◌, if◌then◌else◌}
use rustmote.Prelude.Int.{ℤ, pos, ◌-ℤ◌}
use rustmote.Text.{Text, str, lines}
use rustmote.Time.{DateTime}
use rustmote.Effect.{Io, pure, lift, ◌>>=◌, ◌>>◌}
use rustmote.Relay.Commands.{validate_remote_path}
use rustmote.Relay.Paths.{backups_path}
use rustmote.Relay.Backups.{Entry, read_entries, sort_entries, is_doomed, backup_retention_days}
use rustmote.Relay.Remote.{Remote}
use rustmote.Relay.Steps.{exec_ok}

-- The listing command, for an accepted path.
abbrev pub find_command : Text → Text
find_command p =
    str "find "
    ++ (p ++ str " -mindepth 1 -maxdepth 1 -type d -name 'pre-update-*' -printf '%T@\\t%p\\n'")

module _ (R : Remote) where
  open R use {World, exec, lossy, timestamp}

  -- One entry of the loop that is to go.
  unfoldable pub delete_backup : Text → Io World (Unit {0})
  delete_backup path = do
    p ← lift (validate_remote_path path)
    exec_ok R (str "rm -rf " ++ p)
    pure tt

  unfoldable pub gc_loop : ℤ → ℕ → List Entry → Io World (List Text)
  gc_loop cutoff index [] = pure []
  gc_loop cutoff index (e ∷ es) = do
    let rest = gc_loop cutoff (suc index) es
    let deleted = do delete_backup e.1; ps ← rest; pure (e.1 ∷ ps)
    if is_doomed cutoff index e then deleted else rest

  unfoldable pub gc_backups : Text → DateTime → Io World (List Text)
  gc_backups install_path now = do
    p ← lift (validate_remote_path (backups_path install_path))
    out ← exec (find_command p)
    let entries = sort_entries (read_entries (lines (lossy out.stdout)))
    let cutoff = timestamp now -ℤ pos (backup_retention_days * 24 * 3600)
    if not (out.exit_code == 0) then pure [] else gc_loop cutoff 0 entries
