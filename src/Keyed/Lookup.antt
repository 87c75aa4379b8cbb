-- ===== src/Keyed/Lookup.antt =====
-- One equation for each operation: what a lookup by key finds afterwards.
use rustmote.Prelude.{
  ◌≡◌, ◌∙◌, ap, Bool, Option, none, some, List, [], ◌∷◌, ◌++◌, arith, find, Bool-cases,
  Option-cases, inl, inr, if◌then◌else◌,
}
use rustmote.Text.{Text, text_eq}
use rustmote.Text.Laws.{text_eq_iff}
use rustmote.Keyed.{has_key, remove_first, update_first, HasDistinctKeys}
use rustmote.Keyed.Laws.{
  find-none_of_any, any_of_find-none, find-push, remove_first-none, find-remove_first_ne,
  any-remove_first_self, remove_first_total, update_first-none, update_first_total,
  find-update_first, find-update_first_ne,
}

module _ {A : Type 0} where
  abbrev pub or_found : Option A → Option A → Option A
  or_found (some a) b = some a
  or_found none b = b

  abbrev pub or_unchanged : List A → Option (List A) → List A
  or_unchanged xs none = xs
  or_unchanged xs (some ys) = ys

  abbrev pub or_whole : List A → Option (A × List A) → List A
  or_whole xs none = xs
  or_whole xs (some (a, ys)) = ys

  abbrev pub removed : Option (A × List A) → Option A
  removed none = none
  removed (some (a, ys)) = some a

  abbrev pub map : (A → A) → Option A → Option A
  map f none = none
  map f (some a) = some (f a)

  pub removed-remove_first : (p : A → Bool) (xs : List A) → removed (remove_first p xs) ≡ find p xs
  removed-remove_first p xs = elim (Option-cases (find p xs)) [
    | inl e ↦ rw (remove_first-none p xs (any_of_find-none p xs e), e)
    | inr (a, e) ↦ let (r, g) = remove_first_total p xs e in rw (g, e)
  ]

module _ {A : Type 0} (key : A → Text) where
  -- The key that a lookup finds is the one it asks for.
  pub find_key : (k : Text) (xs : List A) {a : A} → find (has_key key k) xs ≡ some a → key a ≡ k
  find_key k [] h = cc
  find_key k (x ∷ xs) {a} h = ground (arith, find_key k xs {a = a}, text_eq_iff (key x) k)

  pub find-push_key :
      (j : Text) (x : A) (xs : List A)
      → find (has_key key j) (xs ++ (x ∷ [])) ≡ (
          if text_eq (key x) j
          then or_found (find (has_key key j) xs) (some x)
          else find (has_key key j) xs)
  find-push_key j x xs = find-push (has_key key j) x xs ∙ ground arith

  pub find-remove_first :
      (k j : Text) (xs : List A)
      → HasDistinctKeys key xs
      → find (has_key key j) (or_whole xs (remove_first (has_key key k) xs))
        ≡ (if text_eq k j then none else find (has_key key j) xs)
  find-remove_first k j xs d = elim (Option-cases (find (has_key key k) xs)) [
    | inl e ↦
        rw (remove_first-none (has_key key k) xs (any_of_find-none (has_key key k) xs e))
          (elim (Bool-cases (text_eq k j)) [
            | inl same ↦ rw (same, ← (text_eq_iff k j).0 same) e
            | inr other ↦ rw other
          ])
    | inr (a, e) ↦
        let (r, g) = remove_first_total (has_key key k) xs e in
        rw g (elim (Bool-cases (text_eq k j)) [
          | inl same ↦
              rw (same, ← (text_eq_iff k j).0 same)
                (find-none_of_any (has_key key k) r (any-remove_first_self key k xs g d))
          | inr other ↦ rw other (
              find-remove_first_ne (has_key key k) (has_key key j) xs g
                (rw (find_key k xs e) other))
        ])
  ]

  pub find-update_first_key :
      (k j : Text) (f : A → A) (xs : List A)
      → ((a : A) → key (f a) ≡ key a)
      → find (has_key key j) (or_unchanged xs (update_first (has_key key k) f xs))
        ≡ (if text_eq k j then map f (find (has_key key j) xs) else find (has_key key j) xs)
  find-update_first_key k j f xs h = elim (Option-cases (find (has_key key k) xs)) [
    | inl e ↦
        rw (update_first-none (has_key key k) f xs (any_of_find-none (has_key key k) xs e))
          (elim (Bool-cases (text_eq k j)) [
            | inl same ↦ rw (same, ← (text_eq_iff k j).0 same, e)
            | inr other ↦ rw other
          ])
    | inr (a, e) ↦
        let (ys, g) = update_first_total (has_key key k) f xs e in
        rw g (elim (Bool-cases (text_eq k j)) [
          | inl same ↦
              rw (same, ← (text_eq_iff k j).0 same, e)
                (find-update_first (has_key key k) f xs g (λ b. ap (λ t. text_eq t k) (h b)) e)
          | inr other ↦ rw other (
              find-update_first_ne (has_key key k) (has_key key j) f xs g
                (λ b. ap (λ t. text_eq t j) (h b)) (λ b p. rw ((text_eq_iff (key b) k).0 p) other))
        ])
  ]
