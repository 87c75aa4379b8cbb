-- ===== src/Effect/Keeps.antt =====
-- Predicates of the state that an operation keeps, one rule for each way to build an operation.
use rustmote.Prelude.{Bool, true, false, if◌then◌else◌}
use rustmote.Error.{RustmoteError, Result, ok, err}
use rustmote.Effect.{Io, pure, raise, lift, gets, modify, ◌>>=◌, attempt}

-- Whether it succeeds or fails, `m` started in a state with `P` ends in one.
pub record Keeps {ℓ κ μ} {W : Type ℓ} {A : Type κ} (P : W → Type μ) (m : Io W A)
    : Type (ℓ ⊔ μ) where
  pub at : (w : W) → P w → P (m w).1

module _ {ℓ κ μ} {W : Type ℓ} {P : W → Type μ} where
  -- What does not touch the state keeps everything.
  unmoved : {A : Type κ} (answer : W → Result A) → Keeps P (λ s. (answer s, s))
  unmoved answer = record { at = λ s before. before }

module _ {ℓ κ μ} {W : Type ℓ} {A : Type κ} {P : W → Type μ} where
  pub Keeps-pure : (a : A) → Keeps P (pure a)
  unfolding pure
  Keeps-pure a = unmoved (λ s. ok a)

  pub Keeps-raise : (why : RustmoteError) → Keeps P (raise {A = A} why)
  unfolding raise
  Keeps-raise why = unmoved (λ s. err why)

  pub Keeps-lift : (given : Result A) → Keeps P (lift given)
  unfolding lift
  Keeps-lift given = unmoved (λ s. given)

  pub Keeps-gets : (look : W → A) → Keeps P (gets look)
  unfolding gets
  Keeps-gets look = unmoved (λ s. ok (look s))

  pub Keeps-attempt : (m : Io W A) → Keeps P m → Keeps P (attempt m)
  unfolding attempt
  Keeps-attempt m k = record { at = k.at }

  pub Keeps-if :
      (test : Bool) (m n : Io W A) → Keeps P m → Keeps P n → Keeps P (if test then m else n)
  Keeps-if true m n yes_kept no_kept = yes_kept
  Keeps-if false m n yes_kept no_kept = no_kept

module _ {ℓ μ} {W : Type ℓ} {P : W → Type μ} where
  pub Keeps-modify : (change : W → W) → ((w : W) → P w → P (change w)) → Keeps P (modify change)
  unfolding modify
  Keeps-modify change kept = record { at = kept }

module _ {ℓ κ ν μ} {W : Type ℓ} {A : Type κ} {B : Type ν} {P : W → Type μ} (next : A → Io W B)
    (kept : (x : A) → Keeps P (next x)) where
  Keeps-resume : (given : Result A) (s : W) → P s → P ((lift given >>= next) s).1
  unfolding ◌>>=◌
  Keeps-resume (ok x) s before = (kept x).at s before
  Keeps-resume (err why) s before = before

module _ {ℓ κ ν μ} {W : Type ℓ} {A : Type κ} {B : Type ν} {P : W → Type μ} where
  pub Keeps-bind :
      (m : Io W A) (next : A → Io W B)
      → Keeps P m
      → ((x : A) → Keeps P (next x))
      → Keeps P (m >>= next)
  unfolding ◌>>=◌
  Keeps-bind m next first kept = record {
    at = λ s before. Keeps-resume next kept (m s).0 (m s).1 (first.at s before);
  }

module _ {ℓ κ μ ν} {W : Type ℓ} {A : Type κ} {P : W → Type μ} {Q : W → Type ν} where
  pub Keeps-both : (m : Io W A) → Keeps P m → Keeps Q m → Keeps (λ w. P w × Q w) m
  Keeps-both m first second = record {
    at = λ s before. (first.at s before.0, second.at s before.1);
  }

pub ruleset keeps_rules =
    (Keeps-pure, Keeps-raise, Keeps-lift, Keeps-gets, Keeps-attempt, Keeps-if, Keeps-bind)
