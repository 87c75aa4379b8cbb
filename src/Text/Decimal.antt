-- ===== src/Text/Decimal.antt =====
-- Decimal notation: only digits, and no two numbers share one.
use rustmote.Prelude.{
  ℕ, zero, suc, ◌+◌, ◌-◌, ◌*◌, ◌/◌, ◌%◌, ◌<◌, ◌≡◌, refl, ◌∙◌, sym, ap, true, [], ◌∷◌, ◌++◌, arith,
  ltb, all, all-append_iff, Bool-cases, inl, inr,
}
use rustmote.Text.{Text, is_ascii_digit, decimal_from, decimal}

-- The value of digits, read from the left.
value : ℕ → Text → ℕ
value acc [] = acc
value acc (c ∷ s) = value (acc * 10 + (c - 48)) s

value-append : (acc : ℕ) (s t : Text) → value acc (s ++ t) ≡ value (value acc s) t
unfolding value
value-append acc [] t = refl
value-append acc (c ∷ s) t = value-append (acc * 10 + (c - 48)) s t

value-decimal_from : (f n : ℕ) → n < f → value 0 (decimal_from f n) ≡ n
unfolding decimal_from value
value-decimal_from zero n h = absurd (omega arith)
value-decimal_from (suc f) n h = elim (Bool-cases (ltb n 10)) [
  | inl e ↦ rw e (omega arith)
  | inr e ↦ rw e (
      value-append 0 (decimal_from f (n / 10)) ((48 + n % 10) ∷ [])
      ∙ ground (arith, value-decimal_from f (n / 10)))
]

pub decimal_injective : (m n : ℕ) → decimal m ≡ decimal n → m ≡ n
unfolding decimal
decimal_injective m n e =
    sym (value-decimal_from (suc m) m (omega arith))
    ∙ ap (value 0) e
    ∙ value-decimal_from (suc n) n (omega arith)

decimal_from_digits : (f n : ℕ) → all is_ascii_digit (decimal_from f n) ≡ true
unfolding decimal_from
decimal_from_digits zero n = refl
decimal_from_digits (suc f) n = ground (
  arith,
  decimal_from_digits f (n / 10),
  all-append_iff is_ascii_digit (decimal_from f (n / 10)) ((48 + n % 10) ∷ []),
)

pub decimal_digits : (n : ℕ) → all is_ascii_digit (decimal n) ≡ true
unfolding decimal
decimal_digits n = decimal_from_digits (suc n) n
