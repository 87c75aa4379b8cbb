-- ===== src/Relay/Backups.antt =====
-- crates/rustmote-core/src/relay_lifecycle/mod.rs, `gc_backups` without its commands: how the listing
-- of the backups is read, put in order, and which ones are to go.
pub mod Retention
use rustmote.Prelude.{
  ℕ, zero, suc, ◌+◌, ◌-◌, ◌^◌, Bool, true, false, Option, none, some, List, [], ◌∷◌, ltb, leb, ◌==◌,
  if◌then◌else◌,
}
use rustmote.Prelude.Int.{ℤ, pos, negsuc, ltb_ℤ}
use rustmote.Text.{Text, split, split_once, lines, parse_below, strip_plus}

-- `str::parse::<i64>`.
negate : ℕ → ℤ
negate zero = pos 0
negate (suc n) = negsuc n

abbrev optional {ℓ κ} : {A : Type ℓ} {B : Type κ} → (A → B) → Option A → Option B
optional f none = none
optional f (some a) = some (f a)

unfoldable pub parse_i64 : Text → Option ℤ
unfolding parse_below negate
parse_i64 [] = none
parse_i64 (c ∷ s) =
    if c == b'-'
    then optional negate (parse_below (2 ^ 63 + 1) s)
    else optional pos (parse_below (2 ^ 63) (strip_plus (c ∷ s)))

abbrev pub Entry : Type 0
Entry = ℤ × Text

-- One line of the listing: `<epoch>.<fraction>\t<path>`.
abbrev first : List Text → Text
first [] = []
first (s ∷ rest) = s

unfoldable pub read_entry : Text → Option Entry
unfolding parse_i64 split split_once
read_entry line = elim (split_once line 9) [
  | none ↦ none
  | some (ts, path) ↦ optional (λ epoch. (epoch, path)) (parse_i64 (first (split ts b'.')))
]

unfoldable pub read_entries : List Text → List Entry
read_entries [] = []
read_entries (l ∷ ls) = elim (read_entry l) [
  | none ↦ read_entries ls
  | some e ↦ e ∷ read_entries ls
]

-- `sort_by_key(Reverse(epoch))`: newest first, and stable.
unfoldable pub insert_entry : Entry → List Entry → List Entry
insert_entry e [] = e ∷ []
insert_entry e (f ∷ fs) = if ltb_ℤ e.0 f.0 then f ∷ insert_entry e fs else e ∷ f ∷ fs

unfoldable pub sort_entries : List Entry → List Entry
unfolding insert_entry
sort_entries [] = []
sort_entries (e ∷ es) = insert_entry e (sort_entries es)

abbrev pub min_retained_backups : ℕ
min_retained_backups = 3

abbrev pub backup_retention_days : ℕ
backup_retention_days = 7

-- The test of the loop for the entry at an index, `cutoff` being the oldest time that is kept.
abbrev pub is_doomed : (cutoff : ℤ) → (index : ℕ) → Entry → Bool
is_doomed cutoff index e = if ltb index min_retained_backups then false else ltb_ℤ e.0 cutoff
