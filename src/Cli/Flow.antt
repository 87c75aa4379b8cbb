-- ===== src/Cli/Flow.antt =====
-- Commands that act on a world and fail with an error of `anyhow`.
use rustmote.Prelude.{◌≡◌, refl, sym, ap, ◌∙◌}
use rustmote.Text.{Text}
use rustmote.Error.{Result, ok}
use rustmote.Effect.{Io}
use rustmote.Cli.{CliError, CliResult, done, failed, with_context, with_context-done}

abbrev pub CliIo : Type 0 → Type 0 → Type 0
CliIo W A = W → CliResult A × W

module _ {W A : Type 0} where
  pub give : A → CliIo W A
  give a w = (done a, w)

  pub decide : CliResult A → CliIo W A
  decide r w = (r, w)

module _ {W A : Type 0} where
  pub give-done : (a b : A) (w w' : W) → give a w ≡ (done b, w') → w' ≡ w
  unfolding give
  give-done a b w w' success = ap (λ x. x.1) (sym success)

-- An operation of the library on a part of the world, with a context around its error.
unfoldable pub within :
    {W V A : Type 0} → (get : W → V) → (set : V → W → W) → Text → Io V A → CliIo W A
within get set text m w = let (r, v) = m (get w) in (with_context text r, set v w)

-- An operation whose part is the whole.
abbrev pub on_disk : {W A : Type 0} → Text → Io W A → CliIo W A
on_disk {W} = within (λ (w : W). w) (λ v w. v)

module _ {W A B : Type 0} where
  abbrev pub resume : CliResult A → (A → CliIo W B) → CliIo W B
  resume (done a) next w = next a w
  resume (failed e) next w = (failed e, w)

  infixl 5 ◌>>=◌ ◌>>◌
  -- `?`; whoever unfolds it unfolds the basic operations too.
  unfoldable pub ◌>>=◌ : CliIo W A → (A → CliIo W B) → CliIo W B
  unfolding give decide
  ◌>>=◌ m next w = let (r, w') = m w in resume r next w'

  abbrev pub ◌>>◌ : CliIo W A → CliIo W B → CliIo W B
  m >> n = m >>= λ _. n

  -- A success is one of each operation.
  pub >>=-eq-done :
      (m : CliIo W A) (next : A → CliIo W B) {b : B} {w w' : W}
      → (m >>= next) w ≡ (done b, w')
      → (a : A) × (v : W) × (m w ≡ (done a, v)) × (next a v ≡ (done b, w'))
  unfolding ◌>>=◌
  >>=-eq-done m next {b = b} {w = w} {w' = w'} success = both (m w) refl success
    where
      both :
          (x : CliResult A × W)
          → m w ≡ x
          → resume x.0 next x.1 ≡ (done b, w')
          → (a : A) × (v : W) × (m w ≡ (done a, v)) × (next a v ≡ (done b, w'))
      both (done a, v) ran then_next = (a, v, ran, then_next)
      both (failed e, v) ran then_next = absurd cc

module _ {W A B : Type 0} where
  -- After a success comes the next command, after a failure none.
  pub >>=-done :
      (m : CliIo W A) (next : A → CliIo W B) {a : A} {w w' : W}
      → m w ≡ (done a, w')
      → (m >>= next) w ≡ next a w'
  unfolding ◌>>=◌
  >>=-done m next ran = rw ran

  pub decide-done :
      (r : CliResult A) (next : A → CliIo W B) (w : W) {a : A}
      → r ≡ done a
      → (decide r >>= next) w ≡ next a w
  unfolding ◌>>=◌
  decide-done r next w decided = rw decided

  pub decide-failed :
      (r : CliResult A) (next : A → CliIo W B) (w : W) {e : CliError}
      → r ≡ failed e
      → (decide r >>= next) w ≡ (failed e, w)
  unfolding ◌>>=◌
  decide-failed r next w decided = rw decided

module _ {W V A : Type 0} (get : W → V) (set : V → W → W) where
  pub within-ok :
      (text : Text) (m : Io V A) {a : A} {v : V} {w : W}
      → m (get w) ≡ (ok a, v)
      → within get set text m w ≡ (done a, set v w)
  unfolding within with_context
  within-ok text m ran = rw ran

  -- A success within is one of the operation.
  pub within-eq-done :
      (text : Text) (m : Io V A) {a : A} {w w' : W}
      → within get set text m w ≡ (done a, w')
      → (v : V) × (m (get w) ≡ (ok a, v)) × (w' ≡ set v w)
  unfolding within
  within-eq-done text m {a = a} {w = w} {w' = w'} success = both (m (get w)) refl success
    where
      both :
          (x : Result A × V)
          → m (get w) ≡ x
          → ◌≡◌ {A = CliResult A × W} (with_context text x.0, set x.1 w) (done a, w')
          → (v : V) × (m (get w) ≡ (ok a, v)) × (w' ≡ set v w)
      both (r, v) ran same =
          let is_done : with_context text r ≡ done a = ap (λ x. x.0) same in
          let left : set v w ≡ w' = ap (λ x. x.1) same in
          (v, ran ∙ ap (λ s. (s, v)) (with_context-done text r is_done), sym left)

-- A part of the world that a command leaves as it is, whether it succeeds or fails.
pub record Leaves {W X A : Type 0} (part : W → X) (m : CliIo W A) : Type 0 where
  pub at : (w : W) → part (m w).1 ≡ part w

module _ {W X A : Type 0} {part : W → X} where
  pub Leaves-give : (a : A) → Leaves part (give a)
  unfolding give
  Leaves-give a = record { at = λ w. refl }

  pub Leaves-decide : (r : CliResult A) → Leaves part (decide r)
  unfolding decide
  Leaves-decide r = record { at = λ w. refl }

  pub Leaves-within :
      {V : Type 0} (get : W → V) (set : V → W → W) (text : Text) (m : Io V A)
      → ((v : V) (w : W) → part (set v w) ≡ part w)
      → Leaves part (within get set text m)
  unfolding within
  Leaves-within get set text m apart = record { at = λ w. apart (m (get w)).1 w }

module _ {W X A : Type 0} {part : W → X} where
  pub Leaves-ran :
      (m : CliIo W A) (r : CliResult A) (w w' : W)
      → Leaves part m
      → m w ≡ (r, w')
      → part w' ≡ part w
  Leaves-ran m r w w' leaves ran = ap (λ x. part x.1) (sym ran) ∙ leaves.at w

module _ {W X A B : Type 0} {part : W → X} where
  pub Leaves-bind :
      (m : CliIo W A) (next : A → CliIo W B)
      → Leaves part m
      → ((a : A) → Leaves part (next a))
      → Leaves part (m >>= next)
  unfolding ◌>>=◌
  Leaves-bind m next first then_next = record { at = λ w. resumed (m w).0 (m w).1 ∙ first.at w }
    where
      resumed : (r : CliResult A) (w : W) → part (resume r next w).1 ≡ part w
      resumed (done a) w = (then_next a).at w
      resumed (failed e) w = refl
