-- ===== src/RegistryClient/Client/Outside.antt =====
-- What the client keeps while the transport or the disk works.
use rustmote.Prelude.{◌≡◌, refl}
use rustmote.Error.{Result, ok, err}
use rustmote.Effect.{Io}
use rustmote.Effect.Hoare.{Anything, Hoare, Outcome}
use rustmote.RegistryClient.Client.{Hub, World, State, outside}

module _ (H : Hub) {A : Type 0} where
  -- What a call outside leaves: the client as it was, with its answer.
  pub Hoare-outside :
      {P : State H → Type 0} {Q : A → State H → Type 0} (m : Io (World H) A)
      → ((s : State H)
          → P s
          → (a : A) (w : World H) → m s.world ≡ (ok a, w)
          → Q a (record { client = s.client; world = w }))
      → Hoare P (outside H m) Q Anything
  unfolding outside
  Hoare-outside {Q = Q} m h = record { at = λ s p. answered s (m s.world) (h s p) }
    where
      answered :
          (s : State H) (x : Result A × World H)
          → ((a : A) (w : World H) → x ≡ (ok a, w) → Q a (record { client = s.client; world = w }))
          → Outcome Q Anything x.0 (record { client = s.client; world = x.1 })
      answered s (ok a, w) h = h a w refl
      answered s (err e, w) h = tt
