-- ===== src/Tests/Gc.antt =====
-- A collection on a host with four backups, of which two are older than seven days and one of these is
-- among the newest three.
use rustmote.Prelude.{
  ◌≡◌, refl, sym, ap, ◌∙◌, Bool, true, false, ◌||◌, [], ◌∷◌, ◌++◌, All, drop, if◌then◌else◌,
  Bool-cases, inl, inr,
}
use rustmote.Prelude.Int.{pos, ◌-ℤ◌}
use rustmote.Text.{
  Text, str, text_eq, starts_with, split, split_once, join, trim_end_matches, lines,
}
use rustmote.Text.Laws.{text_eq_iff}
use rustmote.Error.{ok}
use rustmote.Effect.{◌>>=◌}
use rustmote.Session.Exec.{ExecOutput, ok_for}
use rustmote.Relay.Commands.{validate_remote_path}
use rustmote.Relay.Commands.Validators.{IsRemotePath}
use rustmote.Relay.Paths.{backups_path, posix_join}
use rustmote.Relay.Backups.{read_entry, read_entries, insert_entry, sort_entries, parse_i64}
use rustmote.Relay.Remote.{Remote}
use rustmote.Relay.Steps.{exec_ok}
use rustmote.Relay.Lifecycle.Gc.{find_command, delete_backup, gc_loop, gc_backups}
use rustmote.Relay.Lifecycle.Gc.Deleted.{expired, IsApart, IsRemover, gc_backups-deleted}
use rustmote.Tests.Lifecycle.{installed}

-- Which paths are there.
abbrev Tree : Type 0
Tree = Text → Bool

abbrev is_within : Text → Text → Bool
is_within p q = text_eq q p || starts_with q (p ++ str "/")

abbrev without : Text → Tree → Tree
without p w q = if is_within p q then false else w q

abbrev listing : Text
listing =
    str "900000.5\t/opt/r/backups/pre-update-4\n"
    ++ str "100.25\t/opt/r/backups/pre-update-1\n"
    ++ str "300000.0\t/opt/r/backups/pre-update-2\n"
    ++ str "800000.75\t/opt/r/backups/pre-update-3\n"

abbrev output : Text → ExecOutput
output stdout = record { exit_code = 0; stdout = stdout; stderr = [] }

abbrev rm : Text
rm = str "rm -rf "

abbrev host : Remote
host = record {
  World = Tree;
  exec = λ command w.
      if starts_with command rm
      then (ok (output []), without (drop 7 command) w)
      else (ok (output listing), w);
  now = λ w. 1000000;
  instant = λ w. 0;
  sleep = λ d w. w;
  list_tags = λ repo w. (ok [], w);
  resolve_digest = λ repo tag w. (ok [], w);
  lossy = λ bytes. bytes;
  encode = λ bytes. bytes;
  to_lowercase = λ s. s;
  format = λ t. [];
  timestamp = pos;
  from_toml = λ raw hint. ok installed;
  to_toml = λ s. ok [];
}

removed :
    (p : Text) (w w' : Tree) (out : ExecOutput)
    → Remote.exec host (rm ++ p) w ≡ (ok out, w')
    → (q : Text) → w' q ≡ without p w q
unfolding starts_with
removed p w w' out ran q = ap (λ x. x.1 q) (sym ran)

host-IsRemover : IsRemover host
host-IsRemover = record {
  there = λ q w. w q;
  gone = λ p w w' out ran exit.
      let same = (text_eq_iff p p).1 refl in removed p w w' out ran p ∙ rw same refl;
  none_made = λ p w w' out ran exit q missing.
      removed p w w' out ran q ∙ elim (Bool-cases (is_within p q)) [
        | inl below ↦ rw below refl
        | inr apart ↦ rw apart missing
      ];
  others_stay = λ p w w' out ran exit q apart. removed p w w' out ran q ∙ rw apart refl;
}

abbrev all_there : Tree
all_there q = true

abbrev oldest : Text
oldest = str "/opt/r/backups/pre-update-1"

collected :
    gc_backups host (str "/opt/r") 1000000 all_there ≡ (ok (oldest ∷ []), without oldest all_there)
unfolding gc_backups gc_loop delete_backup ◌>>=◌ validate_remote_path starts_with split split_once
    join text_eq exec_ok ok_for backups_path posix_join trim_end_matches read_entries read_entry
    parse_i64 sort_entries insert_entry lines ◌-ℤ◌
collected = refl

listed :
    Remote.exec host (find_command (backups_path (str "/opt/r"))) all_there
    ≡ (ok (output listing), all_there)
unfolding starts_with
listed = refl

gc_backups-deleted_example :
    (oldest ∷ [] ≡ expired (pos 1000000) listing)
    × All (λ p. IsRemotePath p × (without oldest all_there p ≡ false)) (oldest ∷ [])
    × ((q : Text) → All (λ p. IsApart p q) (oldest ∷ []) → without oldest all_there q ≡ all_there q)
unfolding text_eq host-IsRemover
gc_backups-deleted_example =
    gc_backups-deleted host host-IsRemover (str "/opt/r") 1000000 (output listing) (oldest ∷ [])
      all_there all_there (without oldest all_there) listed refl collected
