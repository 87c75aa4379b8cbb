-- ===== src/Cli/Connect/Resolved.antt =====
-- crates/rustmote-cli/src/commands/connect.rs, `resolve_target`: what is resolved, and launched.
use rustmote.Prelude.{
  ◌≡◌, refl, sym, ap, ◌∙◌, ◌⊎◌, inl, inr, Option, none, some, List, [], ◌∷◌, ◌++◌, find,
  Option-cases,
}
use mathlib.Core.Path.{subst}
use rustmote.Text.{Text, str}
use rustmote.Error.{ok, err, unknown_target}
use rustmote.Config.{Config}
use rustmote.Registry.{get_target, has_id}
use rustmote.Target.{Target}
use rustmote.Viewer.{TargetId, new, ViewerKind, native, flatpak, command}
use rustmote.Viewer.Target.{IsTargetId, new-IsTargetId}
use rustmote.Cli.{CliResult, done, with_context, ◌>>=◌, >>=-eq-done, with_context-done}
use rustmote.Cli.Connect.{is_labelled, checked, standalone, by_label, resolve_target}

-- An id comes from the entry that matches the argument by its id, or else from the first that
-- matches by its label, or else it is the argument.
abbrev pub IsResolution : Config → Text → TargetId → Option Target → Type 0
IsResolution cfg arg id none =
    (get_target cfg arg ≡ err (unknown_target arg))
    × (find (is_labelled arg) cfg.targets ≡ none)
    × (id.raw ≡ arg)
IsResolution cfg arg id (some t) =
    (id.raw ≡ t.id)
    × ((get_target cfg arg ≡ ok t)
        ⊎ ((get_target cfg arg ≡ err (unknown_target arg))
            × (find (is_labelled arg) cfg.targets ≡ some t)))

new_in_context :
    {B : Type 0} (text raw : Text) (next : TargetId → CliResult B) {b : B}
    → (with_context text (new raw) >>= next) ≡ done b
    → (id : TargetId) × (id.raw ≡ raw) × IsTargetId raw × (next id ≡ done b)
new_in_context text raw next made =
    let (id, in_context, after) = >>=-eq-done _ _ made in
    let (same, valid) = new-IsTargetId raw id (with_context-done text (new raw) in_context) in
    (id, same, valid, after)

checked-IsTargetId :
    (what : Text) (t : Target) (id : TargetId) (matched : Option Target)
    → checked what t ≡ done (id, matched)
    → (matched ≡ some t) × (id.raw ≡ t.id) × IsTargetId id.raw
unfolding checked
checked-IsTargetId what t id matched made =
    let (id', same, valid, after) = new_in_context _ t.id _ made in
    let here : id' ≡ id = cc in
    let is_matched : matched ≡ some t = cc in
    let same' : id.raw ≡ t.id = ap (λ (i : TargetId). i.raw) (sym here) ∙ same in
    (is_matched, same', subst IsTargetId (sym same') valid)

standalone-IsTargetId :
    (arg : Text) (id : TargetId) (matched : Option Target)
    → standalone arg ≡ done (id, matched)
    → (matched ≡ none) × (id.raw ≡ arg) × IsTargetId id.raw
unfolding standalone
standalone-IsTargetId arg id matched made =
    let (id', same, valid, after) = new_in_context _ arg _ made in
    let here : id' ≡ id = cc in
    let is_none : matched ≡ none = cc in
    let same' : id.raw ≡ arg = ap (λ (i : TargetId). i.raw) (sym here) ∙ same in
    (is_none, same', subst IsTargetId (sym same') valid)

get_target-cases :
    (cfg : Config) (arg : Text)
    → (get_target cfg arg ≡ err (unknown_target arg)) ⊎ ((t : Target) × (get_target cfg arg ≡ ok t))
unfolding get_target
get_target-cases cfg arg = elim (Option-cases (find (has_id arg) cfg.targets)) [
  | inl missing ↦ inl (rw (get_target, missing))
  | inr (t, found) ↦ inr (t, rw (get_target, found))
]

-- What is resolved is an id, and comes from where the order of the resolution says.
pub resolve_target-IsResolution :
    (cfg : Config) (arg : Text) (id : TargetId) (matched : Option Target)
    → resolve_target cfg arg ≡ done (id, matched)
    → IsTargetId id.raw × IsResolution cfg arg id matched
unfolding resolve_target by_label
resolve_target-IsResolution cfg arg id matched made = elim (get_target-cases cfg arg) [
  | inr (t, found) ↦
      let made' : checked (str "target '" ++ arg ++ str "'") t ≡ done (id, matched) =
        rw (resolve_target, found) at made in
      let (is_some, same, valid) = checked-IsTargetId _ t id matched made' in
      (valid, subst (IsResolution cfg arg id) (sym is_some) (same, inl found))
  | inl missing ↦
      let made' : by_label cfg arg ≡ done (id, matched) = rw (resolve_target, missing) at made in
      elim (Option-cases (find (is_labelled arg) cfg.targets)) [
        | inr (t, found) ↦
            let made'' : checked (str "target with label '" ++ arg ++ str "'") t
                ≡ done (id, matched) =
              rw (by_label, found) at made' in
            let (is_some, same, valid) = checked-IsTargetId _ t id matched made'' in
            (valid, subst (IsResolution cfg arg id) (sym is_some) (same, inr (missing, found)))
        | inl unlabelled ↦
            let made'' : standalone arg ≡ done (id, matched) = rw (by_label, unlabelled) at made' in
            let (is_none, same, valid) = standalone-IsTargetId arg id matched made'' in
            (valid, subst (IsResolution cfg arg id) (sym is_none) (missing, unlabelled, same))
      ]
]

-- The program that is launched for a target that was resolved, whichever viewer was found, ends its
-- arguments with `--connect` and 9 or 10 digits, and these are the id that was resolved.
pub launched-IsTargetId :
    (cfg : Config) (arg : Text) (id : TargetId) (matched : Option Target) (kind : ViewerKind)
    → resolve_target cfg arg ≡ done (id, matched)
    → ((before : List Text) × ((command kind id).args ≡ before ++ (str "--connect" ∷ id.raw ∷ [])))
      × IsTargetId id.raw
      × IsResolution cfg arg id matched
unfolding command
launched-IsTargetId cfg arg id matched (native path) made =
    let (valid, resolved) = resolve_target-IsResolution cfg arg id matched made in
    (([], refl), valid, resolved)
launched-IsTargetId cfg arg id matched flatpak made =
    let (valid, resolved) = resolve_target-IsResolution cfg arg id matched made in
    ((str "run" ∷ str "com.rustdesk.RustDesk" ∷ [], refl), valid, resolved)
