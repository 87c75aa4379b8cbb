-- ===== src/Keyed/Laws.antt =====
-- Lookups after an entry is added, removed or changed, and the keys that are there.
use rustmote.Prelude.{
  ◌≡◌, refl, Bool, true, false, none, some, List, [], ◌∷◌, ◌++◌, arith, any, find, if◌then◌else◌,
  ◌⊎◌, ◌↔◌, inl, inr, ◌∙◌, Bool-cases, Option-cases,
}
use rustmote.Text.{Text}
use rustmote.Text.Laws.{text_eq_iff}
use rustmote.Keyed.{remove_first, update_first, has_key, HasDistinctKeys}

module _ {A : Type 0} where
  -- Nothing is found exactly when no entry passes.
  pub find-none_of_any : (p : A → Bool) (xs : List A) → any p xs ≡ false → find p xs ≡ none
  find-none_of_any p [] h = refl
  find-none_of_any p (x ∷ xs) h = ground (arith, find-none_of_any p xs)

  pub any_of_find-none : (p : A → Bool) (xs : List A) → find p xs ≡ none → any p xs ≡ false
  any_of_find-none p [] h = refl
  any_of_find-none p (x ∷ xs) h = ground (arith, any_of_find-none p xs)

  pub any_iff_find : (p : A → Bool) (xs : List A) → (any p xs ≡ false) ↔ (find p xs ≡ none)
  any_iff_find p xs = (find-none_of_any p xs, any_of_find-none p xs)

  pub find-push :
      (p : A → Bool) (x : A) (xs : List A)
      → find p (xs ++ (x ∷ []))
        ≡ elim (find p xs) [ some a ↦ some a | none ↦ (if p x then some x else none) ]
  find-push p x [] = ground arith
  find-push p x (y ∷ ys) = ground (arith, find-push p x ys)

  pub any-push :
      (p : A → Bool) (x : A) (xs : List A) → p x ≡ false → any p (xs ++ (x ∷ [])) ≡ any p xs
  any-push p x [] h = ground arith
  any-push p x (y ∷ ys) h = ground (arith, any-push p x ys)

  -- The two ways in which an entry is removed.
  pub remove_first_cases :
      (p : A → Bool) (x : A) (xs : List A) {a : A} {rest : List A}
      → remove_first p (x ∷ xs) ≡ some (a, rest)
      → ((p x ≡ true) × (x ≡ a) × (xs ≡ rest))
        ⊎ ((p x ≡ false) × ((r : List A) × (remove_first p xs ≡ some (a, r)) × (rest ≡ x ∷ r)))
  unfolding remove_first
  remove_first_cases p x xs h = elim (Bool-cases (p x)) [
    | inl e ↦ inl (e, ground arith, ground arith)
    | inr e ↦ elim (Option-cases (remove_first p xs)) [
      | inl n ↦ absurd (ground arith)
      | inr (r, f) ↦ inr (e, (r.1, ground arith, ground arith))
    ]
  ]

  pub remove_first-none : (p : A → Bool) (xs : List A) → any p xs ≡ false → remove_first p xs ≡ none
  unfolding remove_first
  remove_first-none p [] h = refl
  remove_first-none p (x ∷ xs) h = ground (arith, remove_first-none p xs)

  -- A lookup by a test that the removed entry fails is not affected.
  pub find-remove_first_ne :
      (p q : A → Bool) (xs : List A) {a : A} {rest : List A}
      → remove_first p xs ≡ some (a, rest)
      → q a ≡ false
      → find q rest ≡ find q xs
  unfolding remove_first
  find-remove_first_ne p q [] h k = cc
  find-remove_first_ne p q (x ∷ xs) h k = elim (remove_first_cases p x xs h) [
    | inl (e, same, tail) ↦ rw (same, k, tail)
    | inr (e, (r, f, tail)) ↦ rw tail (rw (find-remove_first_ne p q xs f k))
  ]

  pub any-remove_first-false :
      (p q : A → Bool) (xs : List A) {a : A} {rest : List A}
      → remove_first p xs ≡ some (a, rest)
      → any q xs ≡ false
      → any q rest ≡ false
  unfolding remove_first
  any-remove_first-false p q [] h k = cc
  any-remove_first-false p q (x ∷ xs) h k = elim (remove_first_cases p x xs h) [
    | inl (e, same, tail) ↦ rw (← tail) (ground arith)
    | inr (e, (r, f, tail)) ↦ rw tail (ground (arith, any-remove_first-false p q xs f))
  ]

module _ {A : Type 0} (key : A → Text) where
  pub push-HasDistinctKeys :
      (x : A) (xs : List A)
      → any (has_key key (key x)) xs ≡ false
      → HasDistinctKeys key xs
      → HasDistinctKeys key (xs ++ (x ∷ []))
  push-HasDistinctKeys x [] h d = (refl, tt)
  push-HasDistinctKeys x (y ∷ ys) h d = (
    any-push (has_key key (key y)) x ys
          (ground (arith, text_eq_iff (key x) (key y), text_eq_iff (key y) (key x)))
        ∙ d.0,
    push-HasDistinctKeys x ys (ground arith) d.1,
  )

  pub remove_first-HasDistinctKeys :
      (p : A → Bool) (xs : List A) {a : A} {rest : List A}
      → remove_first p xs ≡ some (a, rest)
      → HasDistinctKeys key xs
      → HasDistinctKeys key rest
  unfolding remove_first
  remove_first-HasDistinctKeys p [] h d = cc
  remove_first-HasDistinctKeys p (x ∷ xs) h d = elim (remove_first_cases p x xs h) [
    | inl (e, same, tail) ↦ rw (← tail) d.1
    | inr (e, (r, f, tail)) ↦ rw tail (
      any-remove_first-false p (has_key key (key x)) xs f d.0,
      remove_first-HasDistinctKeys p xs f d.1,
    )
  ]

  -- With distinct keys, the key that was removed is gone.
  pub any-remove_first_self :
      (k : Text) (xs : List A) {a : A} {rest : List A}
      → remove_first (has_key key k) xs ≡ some (a, rest)
      → HasDistinctKeys key xs
      → any (has_key key k) rest ≡ false
  unfolding remove_first
  any-remove_first_self k [] h d = cc
  any-remove_first_self k (x ∷ xs) h d = elim (remove_first_cases (has_key key k) x xs h) [
    | inl (e, same, tail) ↦ rw (← tail, ← (text_eq_iff (key x) k).0 e) d.0
    | inr (e, (r, f, tail)) ↦ rw tail (ground (arith, any-remove_first_self k xs f d.1))
  ]

module _ {A : Type 0} where
  pub update_first_cases :
      (p : A → Bool) (f : A → A) (x : A) (xs : List A) {ys : List A}
      → update_first p f (x ∷ xs) ≡ some ys
      → ((p x ≡ true) × (ys ≡ f x ∷ xs))
        ⊎ ((p x ≡ false) × ((r : List A) × (update_first p f xs ≡ some r) × (ys ≡ x ∷ r)))
  unfolding update_first
  update_first_cases p f x xs h = elim (Bool-cases (p x)) [
    | inl e ↦ inl (e, ground arith)
    | inr e ↦ elim (Option-cases (update_first p f xs)) [
      | inl n ↦ absurd (ground arith)
      | inr (r, g) ↦ inr (e, (r, g, ground arith))
    ]
  ]

  pub update_first-none :
      (p : A → Bool) (f : A → A) (xs : List A) → any p xs ≡ false → update_first p f xs ≡ none
  unfolding update_first
  update_first-none p f [] h = refl
  update_first-none p f (x ∷ xs) h = ground (arith, update_first-none p f xs)

  -- A change that a test does not see does not change its answers.
  pub any-update_first :
      (p q : A → Bool) (f : A → A) (xs : List A) {ys : List A}
      → update_first p f xs ≡ some ys
      → ((a : A) → q (f a) ≡ q a)
      → any q ys ≡ any q xs
  unfolding update_first
  any-update_first p q f [] h k = cc
  any-update_first p q f (x ∷ xs) h k = elim (update_first_cases p f x xs h) [
    | inl (e, g) ↦ rw g (rw (k x))
    | inr (e, (r, g, tail)) ↦ rw tail (rw (any-update_first p q f xs g k))
  ]

  -- The lookup that found the entry finds it changed.
  pub find-update_first :
      (p : A → Bool) (f : A → A) (xs : List A) {a : A} {ys : List A}
      → update_first p f xs ≡ some ys
      → ((b : A) → p (f b) ≡ p b)
      → find p xs ≡ some a
      → find p ys ≡ some (f a)
  unfolding update_first
  find-update_first p f [] h k s = cc
  find-update_first p f (x ∷ xs) {a} h k s = elim (update_first_cases p f x xs h) [
    | inl (e, g) ↦ rw g (ground (arith, k x))
    | inr (e, (r, g, tail)) ↦ rw tail (rw e (find-update_first p f xs g k (rw e at s)))
  ]

  -- A lookup for other entries is not affected.
  pub find-update_first_ne :
      (p q : A → Bool) (f : A → A) (xs : List A) {ys : List A}
      → update_first p f xs ≡ some ys
      → ((b : A) → q (f b) ≡ q b)
      → ((b : A) → p b ≡ true → q b ≡ false)
      → find q ys ≡ find q xs
  unfolding update_first
  find-update_first_ne p q f [] h k n = cc
  find-update_first_ne p q f (x ∷ xs) h k n = elim (update_first_cases p f x xs h) [
    | inl (e, g) ↦ rw g (ground (arith, k x, n x))
    | inr (e, (r, g, tail)) ↦ rw tail (rw (find-update_first_ne p q f xs g k n))
  ]

  pub update_first_total :
      (p : A → Bool) (f : A → A) (xs : List A) {a : A}
      → find p xs ≡ some a
      → (ys : List A) × (update_first p f xs ≡ some ys)
  unfolding update_first
  update_first_total p f [] h = cc
  update_first_total p f (x ∷ xs) {a} h = elim (Bool-cases (p x)) [
    | inl e ↦ (f x ∷ xs, rw e)
    | inr e ↦ let (r, g) = update_first_total p f xs {a = a} (ground arith) in (x ∷ r, rw (e, g))
  ]

  pub updated-update_first :
      (p : A → Bool) (f : A → A) (xs : List A) → (update_first p f xs ≡ none) ↔ (find p xs ≡ none)
  unfolding update_first
  updated-update_first p f [] = ground arith
  updated-update_first p f (x ∷ xs) = ground (arith, updated-update_first p f xs)

  pub remove_first_total :
      (p : A → Bool) (xs : List A) {a : A}
      → find p xs ≡ some a
      → (rest : List A) × (remove_first p xs ≡ some (a, rest))
  unfolding remove_first
  remove_first_total p [] h = cc
  remove_first_total p (x ∷ xs) {a} h = elim (Bool-cases (p x)) [
    | inl e ↦ (xs, ground arith)
    | inr e ↦ let (r, g) = remove_first_total p xs {a = a} (ground arith) in (x ∷ r, rw (e, g))
  ]

module _ {A : Type 0} (key : A → Text) where
  pub update_first-HasDistinctKeys :
      (p : A → Bool) (f : A → A) (xs : List A) {ys : List A}
      → update_first p f xs ≡ some ys
      → ((a : A) → key (f a) ≡ key a)
      → HasDistinctKeys key xs
      → HasDistinctKeys key ys
  unfolding update_first
  update_first-HasDistinctKeys p f [] h k d = cc
  update_first-HasDistinctKeys p f (x ∷ xs) h k d = elim (update_first_cases p f x xs h) [
    | inl (e, g) ↦ rw g (rw (k x) d)
    | inr (e, (r, g, tail)) ↦ rw tail (
      any-update_first p (has_key key (key x)) f xs g (λ a. rw (k a)) ∙ d.0,
      update_first-HasDistinctKeys p f xs g k d.1,
    )
  ]
