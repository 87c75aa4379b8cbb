-- ===== src/Effect/Fails.antt =====
-- The errors that an operation can end with, one rule for each way to build an operation.
use rustmote.Prelude.{◌≡◌, refl, Bool, true, false, if◌then◌else◌}
use mathlib.Core.Path.{subst}
use rustmote.Error
use rustmote.Error.{RustmoteError, Result, ok, err}
use rustmote.Effect.{Io, pure, raise, lift, gets, ◌>>=◌}
use rustmote.Effect.Hoare.{Anything, Hoare, Outcome}

-- A result that is no error but one of `E`.
pub record Refuses {κ} {A : Type κ} (E : RustmoteError → Type 0) (r : Result A) : Type κ where
  pub at : (e : RustmoteError) → r ≡ err e → E e

-- An operation that fails with nothing but errors of `E`.
pub record Fails {ℓ κ} {W : Type ℓ} {A : Type κ} (E : RustmoteError → Type 0) (m : Io W A)
    : Type (ℓ ⊔ κ) where
  pub at : (w : W) → Refuses E (m w).0

module _ {κ} {A : Type κ} {E : RustmoteError → Type 0} where
  pub Refuses-ok : (a : A) → Refuses E (ok a)
  Refuses-ok a = record { at = λ e same. absurd cc }

  pub Refuses-err : (why : RustmoteError) → E why → Refuses {A = A} E (err why)
  Refuses-err why known = record {
    at = λ e same. let known_too : why ≡ e = cc in subst E known_too known;
  }

module _ {κ μ} {A : Type κ} {B : Type μ} {E : RustmoteError → Type 0} where
  pub Refuses-bind :
      (r : Result A) (next : A → Result B)
      → Refuses E r
      → ((a : A) → Refuses E (next a))
      → Refuses E (Error.◌>>=◌ r next)
  Refuses-bind (ok a) next first then_next = then_next a
  Refuses-bind (err why) next first then_next = Refuses-err why (first.at why refl)

module _ {ℓ κ} {W : Type ℓ} {A : Type κ} {E : RustmoteError → Type 0} where
  pub Fails-pure : (a : A) → Fails {W = W} E (pure a)
  unfolding pure
  Fails-pure a = record { at = λ w. Refuses-ok a }

  pub Fails-lift : (r : Result A) → Refuses E r → Fails {W = W} E (lift r)
  unfolding lift
  Fails-lift r refused = record { at = λ w. refused }

  pub Fails-raise : (why : RustmoteError) → E why → Fails {W = W} {A = A} E (raise why)
  unfolding raise
  Fails-raise why known = record { at = λ w. Refuses-err why known }

  pub Fails-gets : (look : W → A) → Fails E (gets look)
  unfolding gets
  Fails-gets look = record { at = λ w. Refuses-ok (look w) }

  pub Fails-if :
      (test : Bool) (m n : Io W A) → Fails E m → Fails E n → Fails E (if test then m else n)
  Fails-if true m n first second = first
  Fails-if false m n first second = second

module _ {ℓ κ μ} {W : Type ℓ} {A : Type κ} {B : Type μ} {E : RustmoteError → Type 0} where
  Refuses-resume :
      (r : Result A) (next : A → Io W B) (w : W)
      → Refuses E r
      → ((a : A) → Fails E (next a))
      → Refuses E ((lift r >>= next) w).0
  unfolding ◌>>=◌
  Refuses-resume (ok a) next w first then_next = (then_next a).at w
  Refuses-resume (err why) next w first then_next = Refuses-err why (first.at why refl)

  pub Fails-bind :
      (m : Io W A) (next : A → Io W B)
      → Fails E m
      → ((a : A) → Fails E (next a))
      → Fails E (m >>= next)
  unfolding ◌>>=◌
  Fails-bind m next first then_next = record {
    at = λ w. Refuses-resume (m w).0 next (m w).1 (first.at w) then_next;
  }

module _ {κ} {W : Type 0} {A : Type κ} {E : RustmoteError → Type 0} {P : W → Type 0}
    {Q : A → W → Type 0} where
  -- What holds after a success, and the errors that there can be instead.
  pub Hoare-Fails : (m : Io W A) → Hoare P m Q Anything → Fails E m → Hoare P m Q (λ e w. E e)
  Hoare-Fails m hoare fails = record {
    at = λ w before. both (m w).0 (m w).1 (hoare.at w before) (fails.at w);
  }
    where
      both :
          (r : Result A) (w : W) → Outcome Q Anything r w → Refuses E r → Outcome Q (λ e w. E e) r w
      both (ok a) w after refused = after
      both (err e) w after refused = refused.at e refl

pub ruleset fails_rules =
    (Refuses-ok, Refuses-bind, Fails-pure, Fails-lift, Fails-gets, Fails-if, Fails-bind)
