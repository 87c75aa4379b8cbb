-- ===== src/Cli.antt =====
-- crates/rustmote-cli: what the commands decide before and after the calls of the library.
pub mod Connect
pub mod ConfigMode
pub mod Flow
pub mod Registry
pub mod Scan
use rustmote.Prelude.{◌≡◌, refl, ◌⊎◌, inl, inr}
use rustmote.Text.{Text}
use rustmote.Error.{RustmoteError, Result, ok, err}

-- `anyhow::Error`: an error of the library, or a message, and the contexts put around it.
pub data CliError : Type 0 where
  caused_by : RustmoteError → CliError
  message : Text → CliError
  context : Text → CliError → CliError

-- `anyhow::Result`.
pub data CliResult (A : Type 0) : Type 0 where
  done : A → CliResult A
  failed : CliError → CliResult A

module _ {A : Type 0} where
  -- `with_context`.
  unfoldable pub with_context : Text → Result A → CliResult A
  with_context text (ok a) = done a
  with_context text (err e) = failed (context text (caused_by e))

module _ {A B : Type 0} where
  infixl 5 ◌>>=◌
  -- `?`.
  abbrev pub ◌>>=◌ : CliResult A → (A → CliResult B) → CliResult B
  done a >>= next = next a
  failed e >>= next = failed e

  -- A chain that succeeds has succeeded in its first part.
  pub >>=-eq-done :
      (r : CliResult A) (next : A → CliResult B) {b : B}
      → (r >>= next) ≡ done b
      → (a : A) × (r ≡ done a) × (next a ≡ done b)
  >>=-eq-done (done a) next made = (a, refl, made)
  >>=-eq-done (failed e) next made = absurd cc

module _ {A : Type 0} where
  -- With a context or without, a success is one of the library.
  pub with_context-done :
      (text : Text) (r : Result A) {a : A} → with_context text r ≡ done a → r ≡ ok a
  unfolding with_context
  with_context-done text (ok b) made = cc
  with_context-done text (err e) made = absurd cc

pub CliResult-cases :
    {A : Type 0} (r : CliResult A) → ((e : CliError) × (r ≡ failed e)) ⊎ ((a : A) × (r ≡ done a))
CliResult-cases (done a) = inr (a, refl)
CliResult-cases (failed e) = inl (e, refl)
