-- ===== src/RegistryClient/Http/Digest.antt =====
-- crates/rustmote-core/src/registry_client.rs, `HttpTransport::resolve_digest`: its answers.
use rustmote.Prelude.{◌≡◌, true, Bool-cases, inl, inr, Option, none, some}
use rustmote.Text.{Text, str, starts_with}
use rustmote.Effect.Hoare.{Anything, Hoare, Hoare-step, Hoare-lift, Outcome}
use rustmote.RegistryClient.Http
use rustmote.RegistryClient.Http.{HttpTransport, header_digest}

abbrev pub IsSha : Text → Type 0
IsSha d = starts_with d (str "sha256:") ≡ true

module _ {World : Type 0} (T : HttpTransport World) where
  header_digest-IsSha :
      (what : Text) (o : Option Text) (w : World)
      → Outcome {W = World} (λ d w. IsSha d) Anything (header_digest T what o) w
  unfolding header_digest
  header_digest-IsSha what none w = tt
  header_digest-IsSha what (some d) w = elim (Bool-cases (starts_with d (str "sha256:"))) [
    | inl sha ↦ rw sha sha
    | inr other ↦ rw other tt
  ]

  pub resolve_digest-IsSha :
      (repo tag : Text)
      → Hoare (λ w. Unit) (Http.resolve_digest T repo tag) (λ d w. IsSha d) Anything
  unfolding Http.resolve_digest
  resolve_digest-IsSha repo tag = Hoare-step _ _ (λ token.
      Hoare-step _ _
        (λ resp. Hoare-step _ _ (λ u. Hoare-lift _ (λ w u. header_digest-IsSha _ resp.digest w))))
