-- ===== src/Effect/Hoare.antt =====
-- What holds after an operation, for its result and for its error, from what holds before: one rule
-- for each way to build an operation.
use rustmote.Prelude.{◌≡◌, refl, Bool, true, false, if◌then◌else◌}
use rustmote.Error.{RustmoteError, Result, ok, err}
use rustmote.Effect.Keeps.{Keeps}
use rustmote.Effect.{Io, pure, raise, lift, gets, modify, ◌>>=◌, attempt}

module _ {ℓ κ} {W : Type ℓ} {A : Type κ} where
  abbrev pub Outcome : (A → W → Type ℓ) → (RustmoteError → W → Type ℓ) → Result A → W → Type ℓ
  Outcome Q E (ok a) w = Q a w
  Outcome Q E (err e) w = E e w

  pub record Hoare (P : W → Type ℓ) (m : Io W A) (Q : A → W → Type ℓ)
      (E : RustmoteError → W → Type ℓ) : Type ℓ where
    pub at : (w : W) → P w → Outcome Q E (m w).0 (m w).1

module _ {ℓ κ} {W : Type ℓ} {A : Type κ} {P : W → Type ℓ} {Q : A → W → Type ℓ}
    {E : RustmoteError → W → Type ℓ} where
  pub Hoare-pure : (a : A) → ((w : W) → P w → Q a w) → Hoare P (pure a) Q E
  unfolding pure
  Hoare-pure a h = record { at = h }

  pub Hoare-raise : (e : RustmoteError) → ((w : W) → P w → E e w) → Hoare P (raise e) Q E
  unfolding raise
  Hoare-raise e h = record { at = h }

  pub Hoare-lift : (r : Result A) → ((w : W) → P w → Outcome Q E r w) → Hoare P (lift r) Q E
  unfolding lift
  Hoare-lift r h = record { at = h }

  pub Hoare-gets : (f : W → A) → ((w : W) → P w → Q (f w) w) → Hoare P (gets f) Q E
  unfolding gets
  Hoare-gets f h = record { at = h }

  pub Hoare-if :
      (b : Bool) (m n : Io W A)
      → (b ≡ true → Hoare P m Q E)
      → (b ≡ false → Hoare P n Q E)
      → Hoare P (if b then m else n) Q E
  Hoare-if true m n hm hn = hm refl
  Hoare-if false m n hm hn = hn refl

  -- Nothing asked of what comes after.
  pub Hoare-any :
      (m : Io W A)
      → ((a : A) (w : W) → Q a w)
      → ((e : RustmoteError) (w : W) → E e w)
      → Hoare P m Q E
  Hoare-any m after failed = record { at = λ w p. any_outcome (m w).0 (m w).1 }
    where
      any_outcome : (r : Result A) (w : W) → Outcome Q E r w
      any_outcome (ok a) w = after a w
      any_outcome (err e) w = failed e w

  -- Two statements about one operation.
  pub Hoare-both :
      {P' : W → Type ℓ} {Q' : A → W → Type ℓ} {E' : RustmoteError → W → Type ℓ} (m : Io W A)
      → Hoare P m Q E
      → Hoare P' m Q' E'
      → Hoare (λ w. P w × P' w) m (λ a w. Q a w × Q' a w) (λ e w. E e w × E' e w)
  Hoare-both {Q' = Q'} {E' = E'} m h k = record {
    at = λ w before. both Q' E' (m w).0 (m w).1 (h.at w before.0) (k.at w before.1);
  }
    where
      both :
          (Q' : A → W → Type ℓ) (E' : RustmoteError → W → Type ℓ) (r : Result A) (w : W)
          → Outcome Q E r w
          → Outcome Q' E' r w
          → Outcome (λ a w. Q a w × Q' a w) (λ e w. E e w × E' e w) r w
      both Q' E' (ok a) w x y = (x, y)
      both Q' E' (err e) w x y = (x, y)

  pub Hoare_ran : {m : Io W A} {a : A} {w w' : W} → Hoare P m Q E → P w → m w ≡ (ok a, w') → Q a w'
  Hoare_ran {w = w} h before ran = rw ran at (h.at w before)

  -- A fact about no state, used on the way.
  pub Hoare-fact : {C : Type ℓ} (m : Io W A) → (C → Hoare P m Q E) → Hoare (λ w. C × P w) m Q E
  Hoare-fact m h = record { at = λ w before. (h before.0).at w before.1 }

  -- Weaker before, stronger after.
  pub Hoare-weaken :
      {P' : W → Type ℓ} {Q' : A → W → Type ℓ} {E' : RustmoteError → W → Type ℓ} (m : Io W A)
      → Hoare P' m Q' E'
      → ((w : W) → P w → P' w)
      → ((a : A) (w : W) → Q' a w → Q a w)
      → ((e : RustmoteError) (w : W) → E' e w → E e w)
      → Hoare P m Q E
  Hoare-weaken m h before after failed = record {
    at = λ w p. let (r, w') = m w in weaken_outcome after failed r w' (h.at w (before w p));
  }
    where
      weaken_outcome :
          {Q' : A → W → Type ℓ} {E' : RustmoteError → W → Type ℓ}
          → ((a : A) (w : W) → Q' a w → Q a w)
          → ((e : RustmoteError) (w : W) → E' e w → E e w)
          → (r : Result A) (w : W) → Outcome Q' E' r w
          → Outcome Q E r w
      weaken_outcome f g (ok a) w h = f a w h
      weaken_outcome f g (err e) w h = g e w h

module _ {ℓ} {W : Type ℓ} {P : W → Type ℓ} {Q : Unit {0} → W → Type ℓ}
    {E : RustmoteError → W → Type ℓ} where
  pub Hoare-modify : (f : W → W) → ((w : W) → P w → Q tt (f w)) → Hoare P (modify f) Q E
  unfolding modify
  Hoare-modify f h = record { at = h }

module _ {ℓ κ μ} {W : Type ℓ} {A : Type κ} {B : Type μ} {M : A → W → Type ℓ} {Q : B → W → Type ℓ}
    {E : RustmoteError → W → Type ℓ} where
  Hoare-resume :
      (r : Result A) (f : A → Io W B)
      → ((a : A) → Hoare (M a) (f a) Q E)
      → (w : W) → Outcome M E r w
      → Outcome Q E ((lift r >>= f) w).0 ((lift r >>= f) w).1
  unfolding ◌>>=◌
  Hoare-resume (ok a) f hf w h = (hf a).at w h
  Hoare-resume (err e) f hf w h = h

  pub Hoare-bind :
      {P : W → Type ℓ} (m : Io W A) (f : A → Io W B)
      → Hoare P m M E
      → ((a : A) → Hoare (M a) (f a) Q E)
      → Hoare P (m >>= f) Q E
  unfolding ◌>>=◌
  Hoare-bind m f hm hf = record {
    at = λ w p. let (r, w') = m w in Hoare-resume r f hf w' (hm.at w p);
  }

module _ {ℓ κ} {W : Type ℓ} {A : Type κ} {P : W → Type ℓ} {M : A → W → Type ℓ}
    {Q : Result A → W → Type ℓ} {E F : RustmoteError → W → Type ℓ} where
  pub Hoare-attempt :
      (m : Io W A)
      → Hoare P m M F
      → ((r : Result A) (w : W) → Outcome M F r w → Q r w)
      → Hoare P (attempt m) Q E
  unfolding attempt
  Hoare-attempt m hm h = record { at = λ w p. let (r, w') = m w in h r w' (hm.at w p) }

module _ {ℓ κ} {W : Type ℓ} {A : Type κ} {P : W → Type ℓ} where
  pub Hoare-Keeps : (m : Io W A) → Keeps P m → Hoare P m (λ a w. P w) (λ e w. P w)
  Hoare-Keeps m k = record { at = λ w p. kept (m w).0 (m w).1 (k.at w p) }
    where
      kept : (r : Result A) (w : W) → P w → Outcome (λ a w. P w) (λ e w. P w) r w
      kept (ok a) w p = p
      kept (err e) w p = p

module _ {ℓ κ} {W : Type ℓ} {A : Type κ} where
  -- Nothing is said of the outcome.
  abbrev pub Anything : A → W → Type ℓ
  Anything a w = Unit

module _ {ℓ κ} {W : Type ℓ} {A : Type κ} where
  -- What is kept, with nothing said of a failure.
  pub Hoare-kept : {P : W → Type ℓ} (m : Io W A) → Keeps P m → Hoare P m (λ a w. P w) Anything
  Hoare-kept m kept = Hoare-weaken m (Hoare-Keeps m kept) (λ w p. p) (λ a w p. p) (λ e w p. tt)

module _ {ℓ κ μ} {W : Type ℓ} {A : Type κ} {B : Type μ} {Q : B → W → Type ℓ} where
  -- A step of which nothing is asked.
  pub Hoare-step :
      (m : Io W A) (next : A → Io W B)
      → ((a : A) → Hoare (λ w. Unit) (next a) Q Anything)
      → Hoare (λ w. Unit) (m >>= next) Q Anything
  Hoare-step m next h = Hoare-bind {M = Anything} m next (Hoare-any m (λ a w. tt) (λ e w. tt)) h

module _ {ℓ} {W : Type ℓ} {A : Type ℓ} {P : W → Type ℓ} {E : RustmoteError → W → Type ℓ} where
  -- A result that is at hand, with the equation that it satisfies.
  pub Hoare-at_hand :
      (r : Result A)
      → ((e : RustmoteError) (w : W) → P w → E e w)
      → Hoare P (lift r) (λ a w. (r ≡ ok a) × P w) E
  unfolding lift
  Hoare-at_hand r failed = record { at = λ w before. outcome r w before failed }
    where
      outcome :
          (r : Result A) (w : W)
          → P w
          → ((e : RustmoteError) (w : W) → P w → E e w)
          → Outcome (λ a w. (r ≡ ok a) × P w) E r w
      outcome (ok a) w before failed = (refl, before)
      outcome (err e) w before failed = failed e w before
