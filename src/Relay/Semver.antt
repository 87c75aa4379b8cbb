-- ===== src/Relay/Semver.antt =====
-- crates/rustmote-core/src/relay_lifecycle/mod.rs: the choice of the latest tag.
pub mod Latest
use rustmote.Prelude.{
  ℕ, Bool, true, false, ◌||◌, ◌&&◌, Option, none, some, List, [], ◌∷◌, ltb, ◌==◌, if◌then◌else◌,
}
use rustmote.Text.{Text, split, parse_u64}

-- The derived order of `Vec<u64>`: lexicographic, a proper prefix below.
unfoldable pub vec_lt : List ℕ → List ℕ → Bool
vec_lt xs [] = false
vec_lt [] (y ∷ ys) = true
vec_lt (x ∷ xs) (y ∷ ys) = ltb x y || x == y && vec_lt xs ys

-- `collect` of results: all of them, or the first failure.
collect : List Text → Option (List ℕ)
collect [] = some []
collect (s ∷ rest) = elim (parse_u64 s) [
  | none ↦ none
  | some n ↦ elim (collect rest) [ none ↦ none | some ns ↦ some (n ∷ ns) ]
]

unfoldable pub parse_dotted_numeric : Text → Option (List ℕ)
unfolding collect
parse_dotted_numeric t = elim (collect (split t b'.')) [
  | none ↦ none
  | some [] ↦ none
  | some (n ∷ ns) ↦ some (n ∷ ns)
]

abbrev pub Best : Type 0
Best = Option (List ℕ × Text)

-- One round of the loop, with the parsed tag.
abbrev pub improve : Text → Option (List ℕ) → Best → Best
improve t none best = best
improve t (some parts) none = some (parts, t)
improve t (some parts) (some (cur, s)) = if vec_lt cur parts then some (parts, t) else some (cur, s)

pub best_of : Best → List Text → Best
best_of best [] = best
best_of best (t ∷ rest) = best_of (improve t (parse_dotted_numeric t) best) rest

abbrev tag_of : Best → Option Text
tag_of none = none
tag_of (some (parts, t)) = some t

unfoldable pub pick_latest_semver : List Text → Option Text
unfolding best_of
pick_latest_semver tags = tag_of (best_of none tags)
