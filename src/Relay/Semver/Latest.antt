-- ===== src/Relay/Semver/Latest.antt =====
-- The tag that is chosen is the highest of those that are dotted numbers.
use rustmote.Prelude.{
  ℕ, ◌≡◌, refl, ◌∙◌, true, false, Option, none, some, List, [], ◌∷◌, arith, ◌⊎◌, inl, inr,
  Bool-cases, Option-cases, All,
}
use mathlib.Core.List.{Memᴰ}
use rustmote.Text.{Text}
use rustmote.Relay.Semver.{
  vec_lt, parse_dotted_numeric, Best, improve, best_of, pick_latest_semver, tag_of,
}

-- not above
abbrev pub VecLe : List ℕ → List ℕ → Type 0
VecLe xs ys = vec_lt ys xs ≡ false

VecLe-refl : (xs : List ℕ) → VecLe xs xs
unfolding vec_lt
VecLe-refl [] = refl
VecLe-refl (x ∷ xs) = ground (arith, VecLe-refl xs)

VecLe-trans : (xs ys zs : List ℕ) → VecLe xs ys → VecLe ys zs → VecLe xs zs
unfolding vec_lt
VecLe-trans [] ys zs h k = refl
VecLe-trans (x ∷ xs) [] zs h k = cc
VecLe-trans (x ∷ xs) (y ∷ ys) [] h k = cc
VecLe-trans (x ∷ xs) (y ∷ ys) (z ∷ zs) h k = ground (arith, VecLe-trans xs ys zs)

VecLe-of_lt : (xs ys : List ℕ) → vec_lt xs ys ≡ true → VecLe xs ys
unfolding vec_lt
VecLe-of_lt xs [] h = cc
VecLe-of_lt [] (y ∷ ys) h = refl
VecLe-of_lt (x ∷ xs) (y ∷ ys) h = ground (arith, VecLe-of_lt xs ys)

-- The best one so far is not below these parts.
abbrev Above : Best → Option (List ℕ) → Type 0
Above b none = Unit
Above none (some p) = ⊥
Above (some (q, t)) (some p) = VecLe p q

improve_new : (t : Text) (o : Option (List ℕ)) (b : Best) → Above (improve t o b) o
improve_new t none b = tt
improve_new t (some p) none = VecLe-refl p
improve_new t (some p) (some (q, s)) = elim (Bool-cases (vec_lt q p)) [
  | inl y ↦ rw y (VecLe-refl p)
  | inr n ↦ rw n n
]

improve_old :
    (t : Text) (o : Option (List ℕ)) (b : Best) (u : Option (List ℕ))
    → Above b u
    → Above (improve t o b) u
improve_old t none b u h = h
improve_old t (some p) none none h = tt
improve_old t (some p) none (some r) h = absurd h
improve_old t (some p) (some (q, s)) none h = tt
improve_old t (some p) (some (q, s)) (some r) h = elim (Bool-cases (vec_lt q p)) [
  | inl y ↦ rw y (VecLe-trans r q p h (VecLe-of_lt q p y))
  | inr n ↦ rw n h
]

best_of_old :
    (b : Best) (tags : List Text) (u : Option (List ℕ)) → Above b u → Above (best_of b tags) u
unfolding best_of
best_of_old b [] u h = h
best_of_old b (t ∷ rest) u h =
    let o = parse_dotted_numeric t in best_of_old (improve t o b) rest u (improve_old t o b u h)

best_of_new :
    (b : Best) (tags : List Text) → All (λ u. Above (best_of b tags) (parse_dotted_numeric u)) tags
unfolding best_of
best_of_new b [] = tt
best_of_new b (t ∷ rest) =
    let o = parse_dotted_numeric t in
    (best_of_old (improve t o b) rest o (improve_new t o b), best_of_new (improve t o b) rest)

-- Where the best one comes from.
abbrev Origin : Best → List Text → Best → Type 0
Origin b tags r =
    (r ≡ b)
    ⊎ ((p : List ℕ) × (t : Text) × (r ≡ some (p, t))
        × (parse_dotted_numeric t ≡ some p)
        × Memᴰ t tags)

improve_origin :
    (t : Text) (o : Option (List ℕ)) (b : Best)
    → (improve t o b ≡ b) ⊎ ((p : List ℕ) × (improve t o b ≡ some (p, t)) × (o ≡ some p))
improve_origin t none b = inl refl
improve_origin t (some p) none = inr (p, refl, refl)
improve_origin t (some p) (some (q, s)) = elim (Bool-cases (vec_lt q p)) [
  | inl y ↦ inr (p, rw y, refl)
  | inr n ↦ inl (rw n)
]

best_of-Origin : (b : Best) (tags : List Text) → Origin b tags (best_of b tags)
unfolding best_of
best_of-Origin b [] = inl refl
best_of-Origin b (t ∷ rest) =
    let o = parse_dotted_numeric t in
    elim (best_of-Origin (improve t o b) rest) [
      | inl same ↦ elim (improve_origin t o b) [
        | inl kept ↦ inl (same ∙ kept)
        | inr (p, new, parsed) ↦ inr (p, t, same ∙ new, parsed, Memᴰ.head refl)
      ]
      | inr (p, u, e, parsed, m) ↦ inr (p, u, e, parsed, Memᴰ.tail m)
    ]

abbrev pub NotAbove : List ℕ → Option (List ℕ) → Type 0
NotAbove p none = Unit
NotAbove p (some q) = VecLe q p

-- No tag is dotted numbers, or this one is, is among the tags, and no other has higher numbers.
abbrev pub IsLatest : List Text → Option Text → Type 0
IsLatest tags none = All (λ u. parse_dotted_numeric u ≡ none) tags
IsLatest tags (some t) =
    (p : List ℕ) × (parse_dotted_numeric t ≡ some p)
    × Memᴰ t tags
    × All (λ u. NotAbove p (parse_dotted_numeric u)) tags

All-none :
    (tags : List Text)
    → All (λ u. Above none (parse_dotted_numeric u)) tags
    → All (λ u. parse_dotted_numeric u ≡ none) tags
All-none [] h = tt
All-none (t ∷ rest) h = elim (Option-cases (parse_dotted_numeric t)) [
  | inl e ↦ (e, All-none rest h.1)
  | inr (p, e) ↦ absurd (rw e at h.0)
]

All-NotAbove :
    (p : List ℕ) (s : Text) (tags : List Text)
    → All (λ u. Above (some (p, s)) (parse_dotted_numeric u)) tags
    → All (λ u. NotAbove p (parse_dotted_numeric u)) tags
All-NotAbove p s [] h = tt
All-NotAbove p s (t ∷ rest) h = elim (Option-cases (parse_dotted_numeric t)) [
  | inl e ↦ (rw e tt, All-NotAbove p s rest h.1)
  | inr (q, e) ↦ (rw e (rw e at h.0), All-NotAbove p s rest h.1)
]

IsLatest-of_best :
    (tags : List Text) (r : Best)
    → All (λ u. Above r (parse_dotted_numeric u)) tags
    → Origin none tags r
    → IsLatest tags (tag_of r)
IsLatest-of_best tags none h o = All-none tags h
IsLatest-of_best tags (some (p, t)) h (inl e) = cc
IsLatest-of_best tags (some (p, t)) h (inr (q, u, e, parsed, m)) =
    let same_p : p ≡ q = ground arith in
    let same_t : t ≡ u = ground arith in
    (p, rw (same_t, same_p) parsed, rw same_t m, All-NotAbove p t tags h)

-- The tag that is chosen consists of dotted numbers, is one of the tags, and has no lower numbers
-- than any other; no tag is chosen only where none consists of dotted numbers.
pub pick_latest_semver-IsLatest : (tags : List Text) → IsLatest tags (pick_latest_semver tags)
unfolding pick_latest_semver
pick_latest_semver-IsLatest tags =
    IsLatest-of_best tags (best_of none tags) (best_of_new none tags) (best_of-Origin none tags)
