-- ===== src/Keyed.antt =====
-- Lists of entries with a textual key, as the registry keeps its servers and targets.
pub mod Laws
pub mod Lookup
use rustmote.Prelude.{
  Bool, true, false, Option, none, some, List, [], ◌∷◌, ◌≡◌, any, find, if◌then◌else◌,
}
use rustmote.Text.{Text, text_eq}

module _ {A : Type 0} where
  abbrev keep_head : A → Option (A × List A) → Option (A × List A)
  keep_head x none = none
  keep_head x (some (a, rest)) = some (a, x ∷ rest)

  -- `position` of the first entry that passes, and `Vec::remove` at that index.
  unfoldable pub remove_first : (A → Bool) → List A → Option (A × List A)
  remove_first p [] = none
  remove_first p (x ∷ xs) = if p x then some (x, xs) else keep_head x (remove_first p xs)

  abbrev keep_head_of : A → Option (List A) → Option (List A)
  keep_head_of x none = none
  keep_head_of x (some xs) = some (x ∷ xs)

  -- `iter_mut().find`, and the change of the entry that was found.
  unfoldable pub update_first : (A → Bool) → (A → A) → List A → Option (List A)
  update_first p f [] = none
  update_first p f (x ∷ xs) = if p x then some (f x ∷ xs) else keep_head_of x (update_first p f xs)

  -- The test `|a| a.key == k`.
  abbrev pub has_key : (A → Text) → Text → A → Bool
  has_key key k a = text_eq (key a) k

  -- No two entries share a key.
  abbrev pub HasDistinctKeys : (A → Text) → List A → Type 0
  HasDistinctKeys key [] = Unit
  HasDistinctKeys key (x ∷ xs) = (any (has_key key (key x)) xs ≡ false) × HasDistinctKeys key xs
