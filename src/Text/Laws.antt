-- ===== src/Text/Laws.antt =====
-- Equality of texts, prefixes, and trimming.
use rustmote.Prelude.{ℕ, ◌≡◌, ◌↔◌, ◌≢◌, refl, Bool, true, false, some, [], ◌∷◌, ◌++◌, arith, all}
use rustmote.Text.{Text, text_eq, strip_prefix, trim_end_matches}

pub text_eq_iff : (s t : Text) → (text_eq s t ≡ true) ↔ (s ≡ t)
unfolding text_eq
text_eq_iff [] [] = ground arith
text_eq_iff [] (d ∷ t) = ground arith
text_eq_iff (c ∷ s) [] = ground arith
text_eq_iff (c ∷ s) (d ∷ t) = ground (arith, text_eq_iff s t)

pub text_eq_ne : (s t : Text) → s ≢ t → text_eq s t ≡ false
text_eq_ne s t h = ground (arith, text_eq_iff s t)

-- A prefix is stripped exactly when the text begins with it.
pub strip_prefix_iff : (s t rest : Text) → (strip_prefix s t ≡ some rest) ↔ (s ≡ t ++ rest)
unfolding strip_prefix
strip_prefix_iff s [] rest = ground arith
strip_prefix_iff [] (d ∷ t) rest = ground arith
strip_prefix_iff (c ∷ s) (d ∷ t) rest = ground (arith, strip_prefix_iff s t rest)

pub all-trim_end_matches :
    (p q : ℕ → Bool) (s : Text) → all q s ≡ true → all q (trim_end_matches p s) ≡ true
unfolding trim_end_matches
all-trim_end_matches p q [] h = refl
all-trim_end_matches p q (c ∷ s) h = ground (arith, all-trim_end_matches p q s)
