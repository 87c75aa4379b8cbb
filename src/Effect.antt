-- ===== src/Effect.antt =====
-- Operations that read and change a state and may fail. What was changed before a failure stays
-- changed, so the state comes back beside an error too.
pub mod Keeps
pub mod Hoare
pub mod Fails
use rustmote.Prelude.{◌≡◌, refl, ap, Bool, true, false}
use rustmote.Error.{RustmoteError, Result, ok, err}

abbrev pub Io {ℓ κ} : Type ℓ → Type κ → Type (ℓ ⊔ κ)
Io W A = W → Result A × W

module _ {ℓ κ} {W : Type ℓ} {A : Type κ} where
  pub pure : A → Io W A
  pure a w = (ok a, w)

  pub raise : RustmoteError → Io W A
  raise e w = (err e, w)

  pub lift : Result A → Io W A
  lift r w = (r, w)

  pub gets : (W → A) → Io W A
  gets f w = (ok (f w), w)

module _ {ℓ} {W : Type ℓ} where
  pub modify : (W → W) → Io W (Unit {0})
  modify f w = (ok tt, f w)

module _ {ℓ κ μ} {W : Type ℓ} {A : Type κ} {B : Type μ} where
  abbrev pub resume : Result A → (A → Io W B) → Io W B
  resume (ok a) f w = f a w
  resume (err e) f w = (err e, w)

  infixl 5 ◌>>=◌ ◌>>◌
  -- `?`; whoever unfolds it unfolds the basic operations too.
  unfoldable pub ◌>>=◌ : Io W A → (A → Io W B) → Io W B
  unfolding pure raise lift gets modify
  ◌>>=◌ m f w = let (r, w') = m w in resume r f w'

  abbrev pub ◌>>◌ : Io W A → Io W B → Io W B
  m >> n = m >>= λ _. n

module _ {ℓ κ} {W : Type ℓ} {A : Type κ} where
  -- The outcome as a value, as where the source matches on an awaited call.
  unfoldable pub attempt : Io W A → Io W (Result A)
  attempt m w = let (r, w') = m w in (ok r, w')

module _ {ℓ κ μ} {W : Type ℓ} {A : Type κ} {B : Type μ} where
  -- What comes after a failure is not done.
  pub >>=-err :
      (m : Io W A) (next : A → Io W B) {why : RustmoteError} {w w' : W}
      → m w ≡ (err why, w')
      → (m >>= next) w ≡ (err why, w')
  unfolding ◌>>=◌
  >>=-err m next failed = rw failed

  -- After a success comes the next operation.
  pub >>=-ok :
      (m : Io W A) (next : A → Io W B) {a : A} {w w' : W}
      → m w ≡ (ok a, w')
      → (m >>= next) w ≡ next a w'
  unfolding ◌>>=◌
  >>=-ok m next done = rw done

  -- A success is one of each operation.
  pub >>=-eq-ok :
      (m : Io W A) (next : A → Io W B) {b : B} {w w' : W}
      → (m >>= next) w ≡ (ok b, w')
      → (a : A) × (v : W) × (m w ≡ (ok a, v)) × (next a v ≡ (ok b, w'))
  unfolding ◌>>=◌
  >>=-eq-ok m next {b = b} {w = w} {w' = w'} done = both (m w) refl done
    where
      both :
          (x : Result A × W)
          → m w ≡ x
          → resume x.0 next x.1 ≡ (ok b, w')
          → (a : A) × (v : W) × (m w ≡ (ok a, v)) × (next a v ≡ (ok b, w'))
      both (ok a, v) ran then_next = (a, v, ran, then_next)
      both (err e, v) ran then_next = absurd cc

module _ {ℓ κ} {W : Type ℓ} {A : Type κ} where
  -- What is lifted or pure leaves the world, and succeeds with what it was given.
  pub lift-eq-ok : (r : Result A) {a : A} {w w' : W} → lift r w ≡ (ok a, w') → (r ≡ ok a) × (w ≡ w')
  unfolding lift
  lift-eq-ok r ran = (ap (λ x. x.0) ran, ap (λ x. x.1) ran)

  pub pure-eq-ok : (b : A) {a : A} {w w' : W} → pure b w ≡ (ok a, w') → (b ≡ a) × (w ≡ w')
  unfolding pure
  pure-eq-ok b {a = a} ran = let given : ok b ≡ ok a = ap (λ x. x.0) ran in (cc, ap (λ x. x.1) ran)
