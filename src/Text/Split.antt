-- ===== src/Text/Split.antt =====
-- Splitting at a separator, and texts that are put together with one.
use rustmote.Prelude.{
  ℕ, ◌≡◌, refl, Bool, true, false, ◌||◌, List, [], ◌∷◌, ◌++◌, arith, ◌==◌, all, any, Bool-cases,
  inl, inr,
}
use rustmote.Text.{Text, split}

pub any-append {ℓ} :
    {A : Type ℓ} (p : A → Bool) (xs ys : List A) → any p (xs ++ ys) ≡ (any p xs || any p ys)
any-append p [] ys = refl
any-append p (x ∷ xs) ys = ground (arith, any-append p xs ys)

-- `str::contains` at a `char`.
abbrev pub contains : Text → ℕ → Bool
contains s sep = any (λ c. c == sep) s

-- A test that the separator fails keeps it out.
pub contains-false_of_all :
    (p : ℕ → Bool) (s : Text) (sep : ℕ) → p sep ≡ false → all p s ≡ true → contains s sep ≡ false
contains-false_of_all p [] sep h k = refl
contains-false_of_all p (c ∷ s) sep h k = ground (arith, contains-false_of_all p s sep)

-- Where the parts before the separator are free of it, both parts are determined.
pub separated_left :
    (s s' t t' : Text) (sep : ℕ)
    → contains s sep ≡ false
    → contains s' sep ≡ false
    → s ++ (sep ∷ t) ≡ s' ++ (sep ∷ t')
    → (s ≡ s') × (t ≡ t')
separated_left [] [] t t' sep h h' e = ground arith
separated_left [] (c ∷ s') t t' sep h h' e = ground arith
separated_left (c ∷ s) [] t t' sep h h' e = ground arith
separated_left (c ∷ s) (d ∷ s') t t' sep h h' e = ground (arith, separated_left s s' t t' sep)

contains_middle : (s t : Text) (sep : ℕ) → contains (s ++ (sep ∷ t)) sep ≡ true
contains_middle [] t sep = ground arith
contains_middle (c ∷ s) t sep = ground (arith, contains_middle s t sep)

-- And so where the parts behind it are.
pub separated_right :
    (s s' t t' : Text) (sep : ℕ)
    → contains t sep ≡ false
    → contains t' sep ≡ false
    → s ++ (sep ∷ t) ≡ s' ++ (sep ∷ t')
    → (s ≡ s') × (t ≡ t')
separated_right [] [] t t' sep h h' e = ground arith
separated_right [] (c ∷ s') t t' sep h h' e = ground (arith, contains_middle s' t' sep)
separated_right (c ∷ s) [] t t' sep h h' e = ground (arith, contains_middle s t sep)
separated_right (c ∷ s) (d ∷ s') t t' sep h h' e = ground (arith, separated_right s s' t t' sep)

split_cases : (s : Text) (sep : ℕ) → (a : Text) × (rest : List Text) × (split s sep ≡ a ∷ rest)
unfolding split
split_cases [] sep = ([], [], refl)
split_cases (c ∷ s) sep =
    let (a, rest, e) = split_cases s sep in
    elim (Bool-cases (c == sep)) [
      | inl same ↦ ([], split s sep, rw same)
      | inr other ↦ (c ∷ a, rest, rw (other, e))
    ]

pub split-append_sep :
    (s t : Text) (sep : ℕ) → split (s ++ (sep ∷ t)) sep ≡ split s sep ++ split t sep
unfolding split
split-append_sep [] t sep = ground arith
split-append_sep (c ∷ s) t sep =
    let (a, rest, e) = split_cases s sep in
    elim (Bool-cases (c == sep)) [
      | inl same ↦ rw (same, split-append_sep s t sep)
      | inr other ↦ rw (other, split-append_sep s t sep, e)
    ]

pub split_of_free : (s : Text) (sep : ℕ) → contains s sep ≡ false → split s sep ≡ s ∷ []
unfolding split
split_of_free [] sep h = refl
split_of_free (c ∷ s) sep h = ground (arith, split_of_free s sep)
