-- ===== src/Dict.antt =====
-- `BTreeMap<String, V>`: the entries as an association list. The program looks keys up, inserts and
-- removes them, counts them, and never depends on the order of the entries.
use rustmote.Prelude.{◌≡◌, refl, Option, none, some, List, [], ◌∷◌, arith, if◌then◌else◌}
use rustmote.Text.{Text, text_eq}
use rustmote.Text.Laws.{text_eq_iff}

abbrev pub Dict : Type 0 → Type 0
Dict V = List (Text × V)

module _ {V : Type 0} where
  unfoldable pub get : Dict V → Text → Option V
  get [] k = none
  get ((j, v) ∷ m) k = if text_eq j k then some v else get m k

  unfoldable pub insert : Dict V → Text → V → Dict V
  insert [] k v = (k, v) ∷ []
  insert ((j, w) ∷ m) k v = if text_eq j k then (k, v) ∷ m else (j, w) ∷ insert m k v

  unfoldable pub remove : Dict V → Text → Dict V
  remove [] k = []
  remove ((j, w) ∷ m) k = let rest = remove m k in if text_eq j k then rest else (j, w) ∷ rest

  pub get-insert :
      (m : Dict V) (k j : Text) (v : V)
      → get (insert m k v) j ≡ (if text_eq k j then some v else get m j)
  unfolding get insert
  get-insert [] k j v = refl
  get-insert ((i, w) ∷ m) k j v =
      ground (arith, get-insert m k j v, text_eq_iff i k, text_eq_iff k j, text_eq_iff i j)
