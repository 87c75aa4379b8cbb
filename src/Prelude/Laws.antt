-- ===== src/Prelude/Laws.antt =====
-- Laws of the list functions that the components share.
use Prim.Native.Nat.{◌+◌}
use mathlib.Core.Path.{◌≡◌, refl}
use mathlib.Core.Logic.{◌↔◌}
use mathlib.Core.Bool.{Bool, true}
use mathlib.Core.List.{List, [], ◌∷◌, ◌++◌}
use native.Mathlib.Omega.{arith}
use rustmote.Prelude.Lists.{length, all, All}

module _ {ℓ} {A : Type ℓ} where
  pub length-append : (xs ys : List A) → length (xs ++ ys) ≡ length xs + length ys
  length-append [] ys = omega arith
  length-append (x ∷ xs) ys = omega (arith, length-append xs ys)

  pub all-append_iff :
      (p : A → Bool) (xs ys : List A)
      → (all p (xs ++ ys) ≡ true) ↔ ((all p xs ≡ true) × (all p ys ≡ true))
  all-append_iff p [] ys = ground arith
  all-append_iff p (x ∷ xs) ys = ground (arith, all-append_iff p xs ys)

  -- A weaker test holds wherever a stronger one does.
  pub all_mono :
      (p q : A → Bool) (xs : List A)
      → ((x : A) → p x ≡ true → q x ≡ true)
      → all p xs ≡ true
      → all q xs ≡ true
  all_mono p q [] h e = refl
  all_mono p q (x ∷ xs) h e = ground (arith, h x, all_mono p q xs h)

module _ {ℓ κ} {A : Type ℓ} (P : A → Type κ) where
  pub All-append : (xs ys : List A) → All P xs → All P ys → All P (xs ++ ys)
  All-append [] ys hx hy = hy
  All-append (x ∷ xs) ys hx hy = (hx.0, All-append xs ys hx.1 hy)
