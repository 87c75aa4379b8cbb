-- ===== src/Viewer.antt =====
-- crates/rustmote-core/src/viewer.rs: the viewer that is launched, as on Linux.
pub mod Target
use rustmote.Prelude.{
  ℕ, Bool, true, false, ◌&&◌, ◌||◌, Option, none, some, List, [], ◌∷◌, ◌++◌, all, any, find, leb,
  ◌==◌, if◌then◌else◌,
}
use rustmote.Text.{Text, str, is_ascii_digit, bytes, byte_len}
use rustmote.Error.{Result, ok, err, invalid_target_id, viewer_not_found}

-- `TargetId`, whose one field is private: only `new` makes one.
pub record TargetId : Type 0 where
  pub raw : Text

unfoldable pub new : Text → Result TargetId
new raw =
    let len = byte_len raw in
    if (leb 9 len && leb len 10) && all is_ascii_digit (bytes raw)
    then ok (record { raw = raw })
    else err (invalid_target_id raw)

pub data ViewerKind : Type 0 where
  native : (path : Text) → ViewerKind
  flatpak : ViewerKind

-- The machine as the search sees it: `Path::is_file`, the entries of the variable PATH where it is
-- set, `Path::join`, and whether a program with arguments runs and exits with success.
pub record Machine : Type 0 where
  pub is_file : Text → Bool
  pub path_entries : Option (List Text)
  pub join : Text → Text → Text
  pub succeeds : (program : Text) (args : List Text) → Bool

module _ (M : Machine) where
  candidates_in : Text → List Text → List Text
  candidates_in name [] = []
  candidates_in name (entry ∷ rest) = M.join entry name ∷ candidates_in name rest

  unfoldable pub which_on_path : Text → Option Text
  unfolding candidates_in
  which_on_path name = elim M.path_entries [
    | none ↦ none
    | some entries ↦ find M.is_file (candidates_in name entries)
  ]

  unfoldable pub flatpak_available : Bool
  flatpak_available = elim (which_on_path (str "flatpak")) [
    | none ↦ false
    | some program ↦ M.succeeds program (str "info" ∷ str "com.rustdesk.RustDesk" ∷ [])
  ]

  unfoldable pub default_candidates : List Text
  default_candidates =
      let fixed = str "/usr/bin/rustdesk" ∷ str "/opt/rustdesk/rustdesk" ∷ [] in
      elim (which_on_path (str "rustdesk")) [ none ↦ fixed | some p ↦ p ∷ fixed ]

  -- The standard search.
  unfoldable pub search_defaults : Result ViewerKind
  search_defaults = elim (find M.is_file default_candidates) [
    | some path ↦ ok (native path)
    | none ↦ if flatpak_available then ok flatpak else err viewer_not_found
  ]

  unfoldable pub detect_with_override : Option Text → Result ViewerKind
  detect_with_override none = search_defaults
  detect_with_override (some p) = if M.is_file p then ok (native p) else search_defaults

  unfoldable pub detect : Result ViewerKind
  detect = detect_with_override none

-- `Command`: a program and its arguments.
pub record Command : Type 0 where
  pub program : Text
  pub args : List Text

unfoldable pub command : ViewerKind → TargetId → Command
command (native path) target = record { program = path; args = str "--connect" ∷ target.raw ∷ [] }
command flatpak target = record {
  program = str "flatpak";
  args = str "run" ∷ str "com.rustdesk.RustDesk" ∷ str "--connect" ∷ target.raw ∷ [];
}
