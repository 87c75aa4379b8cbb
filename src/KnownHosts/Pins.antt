-- ===== src/KnownHosts/Pins.antt =====
-- What a check does to the pins of the store.
use rustmote.Prelude.{ℕ, ◌≡◌, refl, some, arith, if◌then◌else◌, Option-cases, inl, inr, ◌⊎◌}
use rustmote.Text.{Text, text_eq}
use rustmote.Text.Laws.{text_eq_iff}
use rustmote.Dict
use rustmote.Dict.{get-insert}
use rustmote.KnownHosts.{
  HostKey, KnownHosts, pinned, matched, mismatch, TofuPolicy, endpoint, get, verify_or_pin,
}

module _ (host : Text) (port : ℕ) (observed : HostKey) (policy : TofuPolicy) (kh : KnownHosts) where
  -- A pin that is there stays as it is, whichever endpoint is checked.
  pub pin_stays :
      (h : Text) (p : ℕ) (k : HostKey)
      → get kh h p ≡ some k
      → get (verify_or_pin host port observed policy kh).1 h p ≡ some k
  unfolding get verify_or_pin
  pin_stays h p k e = ground (
    arith,
    get-insert kh.entries (endpoint host port) (endpoint h p) observed,
    text_eq_iff (endpoint host port) (endpoint h p),
  )

  -- A check that does not fail leaves its endpoint pinned to the observed fingerprint.
  pub pinned_of_accepted :
      ((verify_or_pin host port observed policy kh).0 ≡ pinned)
        ⊎ ((verify_or_pin host port observed policy kh).0 ≡ matched)
      → (k : HostKey) × (get (verify_or_pin host port observed policy kh).1 host port ≡ some k)
        × (k.fingerprint ≡ observed.fingerprint)
  unfolding get verify_or_pin
  pinned_of_accepted h = elim (Option-cases (Dict.get kh.entries (endpoint host port))) [
    | inl e ↦ (
      observed,
      ground (
        arith,
        get-insert kh.entries (endpoint host port) (endpoint host port) observed,
        text_eq_iff (endpoint host port) (endpoint host port),
      ),
      refl,
    )
    | inr (k, e) ↦ (k, ground arith, ground (arith, text_eq_iff k.fingerprint observed.fingerprint))
  ]

  -- A pinned endpoint answers by its fingerprint alone, and the store does not change.
  pub verify_of_pinned :
      (k : HostKey)
      → get kh host port ≡ some k
      → verify_or_pin host port observed policy kh ≡ (
          if text_eq k.fingerprint observed.fingerprint
          then (matched, kh)
          else (mismatch k observed.fingerprint, kh))
  unfolding get verify_or_pin
  verify_of_pinned k e = ground arith
