-- ===== src/Relay/OsRelease.antt =====
-- crates/rustmote-core/src/relay_lifecycle/mod.rs, `parse_os_release`. Unicode lower-casing
-- (`str::to_lowercase`) is an argument.
use rustmote.Prelude.{Option, none, some, List, [], ◌∷◌, ◌==◌, ◌||◌, if◌then◌else◌}
use rustmote.Text.{
  Text, str, text_eq, strip_prefix, trim, trim_start_matches, trim_end_matches, lines,
  split_whitespace,
}

pub data OsKind : Type 0 where
  debian ubuntu arch : OsKind

-- `trim_matches('"')`.
abbrev pub unquote : Text → Text
unquote s = trim_end_matches (λ c. c == b'"') (trim_start_matches (λ c. c == b'"') s)

match_id : Text → Option OsKind
match_id s =
    if text_eq s (str "debian")
    then some debian
    else if text_eq s (str "ubuntu")
    then some ubuntu
    else if text_eq s (str "arch") || text_eq s (str "archlinux")
    then some arch
    else none

-- The values of `ID` and `ID_LIKE`; a later line wins.
record Ids : Type 0 where
  id : Option Text
  id_like : Option Text

module _ (to_lowercase : Text → Text) where
  read_line : Ids → Text → Ids
  read_line ids raw =
      let line = trim raw in
      elim (strip_prefix line (str "ID=")) [
        | some rest ↦ record ids { id = some (to_lowercase (unquote rest)) }
        | none ↦ elim (strip_prefix line (str "ID_LIKE=")) [
          | some rest ↦ record ids { id_like = some (to_lowercase (unquote rest)) }
          | none ↦ ids
        ]
      ]

  read_lines : Ids → List Text → Ids
  read_lines ids [] = ids
  read_lines ids (l ∷ ls) = read_lines (read_line ids l) ls

-- `find_map` over words.
first_match : List Text → Option OsKind
first_match [] = none
first_match (w ∷ ws) = elim (match_id w) [ some k ↦ some k | none ↦ first_match ws ]

abbrev matched : Option Text → Option OsKind
matched none = none
matched (some s) = match_id s

abbrev fallback : Option Text → Option OsKind
fallback none = none
fallback (some s) = first_match (split_whitespace s)

unfoldable pub parse_os_release : (to_lowercase : Text → Text) → Text → Option OsKind
unfolding read_line read_lines match_id first_match
parse_os_release to_lowercase raw =
    let ids = read_lines to_lowercase (record { id = none; id_like = none }) (lines raw) in
    elim (matched ids.id) [ some k ↦ some k | none ↦ fallback ids.id_like ]
