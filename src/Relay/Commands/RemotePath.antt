-- ===== src/Relay/Commands/RemotePath.antt =====
-- crates/rustmote-core/src/relay_lifecycle/commands.rs, `validate_remote_path`: which paths it accepts,
-- told by their characters and by where two dots may stand.
use rustmote.Prelude.{
  ℕ, zero, suc, ◌+◌, ◌≤◌, ◌<◌, ◌≡◌, ◌↔◌, refl, sym, ap, ◌∙◌, inl, inr, Bool, true, ◌||◌, ◌==◌, List,
  [], ◌∷◌, ◌++◌, any, all, All, Bool-cases, arith,
}
use mathlib.Core.Path.{subst}
use rustmote.Text.{Text, str, split, push_first, text_eq, starts_with}
use rustmote.Text.Laws.{text_eq_iff}
use rustmote.Text.Split.{any-append, contains}
use rustmote.Error.{ok}
use rustmote.Relay.Commands.{is_path_char, has_parent_component, validate_remote_path}
use rustmote.Relay.Commands.Validators.{IsRemotePath, validate_remote_path_iff}
use rustmote.Relay.Paths.Valid.{has_parent-join}

abbrev pub path_characters : Text
path_characters = str "ABCDEFGHIJKLMNOPQRSTUVWXYZabcdefghijklmnopqrstuvwxyz0123456789/._-"

-- A character that is listed passes every test that the whole list passes.
listed_passes :
    (p : ℕ → Bool) (list : Text) (c : ℕ) → contains list c ≡ true → all p list ≡ true → p c ≡ true
listed_passes p [] c h every = absurd (ground arith)
listed_passes p (d ∷ list) c h every = elim (Bool-cases (d == c)) [
  | inl same ↦ let is : d ≡ c = ground arith in ap p (sym is) ∙ ground arith
  | inr other ↦ listed_passes p list c (ground arith) (ground arith)
]

characters_from : (first count : ℕ) → Text
characters_from first zero = []
characters_from first (suc count) = first ∷ characters_from (suc first) count

contains-characters_from :
    (first count c : ℕ)
    → first ≤ c
    → c < first + count
    → contains (characters_from first count) c ≡ true
unfolding characters_from
contains-characters_from first zero c low high = absurd (omega arith)
contains-characters_from first (suc count) c low high = elim (Bool-cases (first == c)) [
  | inl same ↦ rw same refl
  | inr other ↦
      let above : suc first ≤ c = ground arith in
      let below : c < suc first + count = omega arith in
      ground (arith, contains-characters_from (suc first) count c above below)
]

path_characters_are :
    path_characters
    ≡ characters_from b'A' 26
      ++ (characters_from b'a' 26 ++ (characters_from b'0' 10 ++ str "/._-"))
unfolding characters_from
path_characters_are = refl

-- Which list a character of a path is in.
in_parts :
    (c : ℕ)
    → is_path_char c ≡ true
    → (contains (characters_from b'A' 26) c
        || (contains (characters_from b'a' 26) c
            || (contains (characters_from b'0' 10) c || contains (str "/._-") c)))
      ≡ true
in_parts c allowed = ground (
  arith,
  allowed,
  contains-characters_from b'A' 26 c,
  contains-characters_from b'a' 26 c,
  contains-characters_from b'0' 10 c,
)

is_path_char_iff : (c : ℕ) → (is_path_char c ≡ true) ↔ (contains path_characters c ≡ true)
is_path_char_iff c = (
  λ allowed.
      let in_list = λ (d : ℕ). d == c in
      let rest = characters_from b'0' 10 ++ str "/._-" in
      ap (λ list. contains list c) path_characters_are
      ∙ any-append in_list (characters_from b'A' 26) _
      ∙ ap (λ b. contains (characters_from b'A' 26) c || b)
          (any-append in_list (characters_from b'a' 26) rest
            ∙ ap (λ b. contains (characters_from b'a' 26) c || b)
                (any-append in_list (characters_from b'0' 10) (str "/._-")))
      ∙ in_parts c allowed,
  λ listed. listed_passes is_path_char path_characters c listed refl,
)

-- The text ends here, or a slash follows.
abbrev pub EndsComponent : Text → Type 0
EndsComponent [] = Unit
EndsComponent (c ∷ rest) = c ≡ b'/'

-- `/..` somewhere, with the end of a component behind it.
abbrev WayUp : Text → Type 0
WayUp s =
    (before : Text) × (after : Text) × (s ≡ before ++ (str "/.." ++ after)) × EndsComponent after

or_true : (a : Bool) {b : Bool} → b ≡ true → (a || b) ≡ true
or_true a h = ground (arith, h)

way_further : (c : ℕ) (s : Text) → WayUp s → WayUp (c ∷ s)
way_further c s (before, after, same, ends) = (c ∷ before, after, ap (λ t. c ∷ t) same, ends)

-- A way up leads through a component that is two dots.
parent_of_way :
    (before after : Text)
    → EndsComponent after
    → has_parent_component (before ++ (str "/.." ++ after)) ≡ true
unfolding split text_eq
parent_of_way before [] ends = ground (arith, has_parent-join before (str ".."))
parent_of_way before (c ∷ after) ends =
    let dots = has_parent-join (str "..") after in
    let here : has_parent_component (str ".." ++ (c ∷ after)) ≡ true =
      ap (λ d. has_parent_component (str ".." ++ (d ∷ after))) ends ∙ dots in
    has_parent-join before (str ".." ++ (c ∷ after)) ∙ or_true (has_parent_component before) here

-- The first component of a text, and a way up if one of the others is two dots.
record Components (s : Text) : Type 0 where
  first : Text
  others : List Text
  are : split s b'/' ≡ first ∷ others
  behind : Text
  together : s ≡ first ++ behind
  ends : EndsComponent behind
  way : any (λ c. text_eq c (str "..")) others ≡ true → WayUp s

way_after_slash :
    (s : Text) (rest : Components s)
    → any (λ c. text_eq c (str "..")) (rest.first ∷ rest.others) ≡ true
    → WayUp (b'/' ∷ s)
way_after_slash s rest parent = elim (Bool-cases (text_eq rest.first (str ".."))) [
  | inl dots ↦
      let first_is = (text_eq_iff rest.first (str "..")).0 dots in
      (
        [],
        rest.behind,
        ap (λ t. b'/' ∷ t) (rest.together ∙ ap (λ t. t ++ rest.behind) first_is),
        rest.ends,
      )
  | inr none ↦ way_further b'/' s (rest.way (rw none at parent))
]

components : (s : Text) → Components s
unfolding split
components [] = record {
  first = [];
  others = [];
  are = refl;
  behind = [];
  together = refl;
  ends = tt;
  way = λ parent. absurd cc;
}
components (c ∷ s) =
    let rest = components s in
    elim (Bool-cases (c == b'/')) [
      | inl slash ↦
          let is_slash : c ≡ b'/' = ground arith in
          record {
            first = [];
            others = rest.first ∷ rest.others;
            are = rw slash (ap (λ cs. [] ∷ cs) rest.are);
            behind = c ∷ s;
            together = refl;
            ends = is_slash;
            way =
                λ parent. subst (λ d. WayUp (d ∷ s)) (sym is_slash) (way_after_slash s rest parent);
          }
      | inr other ↦ record {
        first = c ∷ rest.first;
        others = rest.others;
        are = rw other (ap (push_first c) rest.are);
        behind = rest.behind;
        together = ap (λ t. c ∷ t) rest.together;
        ends = rest.ends;
        way = λ parent. way_further c s (rest.way parent);
      }
    ]

-- A text that begins with a slash and has a component of two dots has a way up.
way_of_parent : (s : Text) → has_parent_component (b'/' ∷ s) ≡ true → WayUp (b'/' ∷ s)
unfolding split text_eq
way_of_parent s parent =
    let rest = components s in
    way_after_slash s rest (ap (any (λ c. text_eq c (str ".."))) (sym rest.are) ∙ parent)

-- A path from the root, of the listed characters, with no component of two dots.
pub record IsSafePath (s : Text) : Type 0 where
  pub rooted : (rest : Text) × (s ≡ b'/' ∷ rest)
  pub characters : All (λ c. contains path_characters c ≡ true) s
  pub no_way_up : (before after : Text) → s ≡ before ++ (str "/.." ++ after) → ¬ EndsComponent after

listed_of_all :
    (s : Text) → all is_path_char s ≡ true → All (λ c. contains path_characters c ≡ true) s
listed_of_all [] allowed = tt
listed_of_all (c ∷ s) allowed =
    ((is_path_char_iff c).0 (ground arith), listed_of_all s (ground arith))

all_of_listed :
    (s : Text) → All (λ c. contains path_characters c ≡ true) s → all is_path_char s ≡ true
all_of_listed [] listed = refl
all_of_listed (c ∷ s) (here, listed) =
    let passes = (is_path_char_iff c).1 here in rw passes (all_of_listed s listed)

safe_of_accepted : (s : Text) → IsRemotePath s → IsSafePath s
unfolding starts_with
safe_of_accepted [] h = absurd (ground (arith, h.absolute))
safe_of_accepted (c ∷ s) h = record {
  rooted = (s, ground (arith, h.absolute));
  characters = listed_of_all (c ∷ s) h.allowed;
  no_way_up = λ before after same ends.
      let parent = ap has_parent_component same ∙ parent_of_way before after ends in
      absurd (ground (arith, parent, h.no_parent));
}

accepted_of_safe : (s : Text) → IsSafePath s → IsRemotePath s
unfolding starts_with
accepted_of_safe s h =
    let (rest, same) = h.rooted in
    record {
      absolute = rw same refl;
      allowed = all_of_listed s h.characters;
      no_parent = elim (Bool-cases (has_parent_component s)) [
        | inl parent ↦
            let (before, after, way, ends) =
              way_of_parent rest (ap has_parent_component (sym same) ∙ parent) in
            absurd (h.no_way_up before after (same ∙ way) ends)
        | inr none ↦ none
      ];
    }

-- A path is accepted, and handed on as it is, exactly when it begins with `/`, each of its characters
-- is one of `A` to `Z`, `a` to `z`, `0` to `9`, `/`, `.`, `_` and `-`, and no `/..` in it has the end
-- of the path or a `/` behind it.
pub accepted_path_iff : (s t : Text) → (validate_remote_path s ≡ ok t) ↔ (IsSafePath s × (s ≡ t))
accepted_path_iff s t =
    let accepted = validate_remote_path_iff s t in
    (
      λ valid. let (h, same) = accepted.0 valid in (safe_of_accepted s h, same),
      λ safe. accepted.1 (accepted_of_safe s safe.0, safe.1),
    )
