-- ===== src/Tests/Trust.antt =====
-- Host keys: a server that is pinned, and another that shows its name with another key.
use rustmote.Prelude.{◌≡◌, ◌≢◌, refl, ℕ, none, some, [], ◌∷◌, ◌⊎◌, ◌↔◌, true, false, arith}
use rustmote.Text.{Text, str, text_eq, decimal}
use rustmote.Text.Laws.{text_eq_iff}
use rustmote.Error.{err, host_key_mismatch}
use rustmote.Dict
use rustmote.KnownHosts.{
  HostKey, TofuPolicy, trust_on_first_use, strict, get, verify_or_pin, endpoint,
}
use rustmote.KnownHosts.Endpoint.{endpoint_injective}
use rustmote.Session.HostKeyHandler.{Handler, Shared, check_server_key}
use rustmote.Session.HostKeyHandler.Trust.{
  Handshake, shake, shake_all, shown, pin, IsAccepted, pin-shake_all, IsAccepted-iff,
  changed_key_refused,
}

abbrev ssh : ℕ
ssh = 22

abbrev handler_of : Text → TofuPolicy → Handler
handler_of host policy = record { host = host; port = 22; policy = policy }

abbrev first_visit : Handshake
first_visit = record {
  handler = handler_of (str "relay") trust_on_first_use;
  fingerprint = str "aa";
  name = str "ssh-ed25519";
  at = 5;
}

abbrev elsewhere : Handshake
elsewhere = record {
  handler = handler_of (str "nas") strict;
  fingerprint = str "bb";
  name = str "ssh-ed25519";
  at = 6;
}

abbrev impostor : Handshake
impostor = record {
  handler = handler_of (str "relay") trust_on_first_use;
  fingerprint = str "bb";
  name = str "ssh-rsa";
  at = 7;
}

abbrev nothing_known : Shared
nothing_known = record { known_hosts = record { entries = [] }; outcome_slot = none }

abbrev relay_key : HostKey
relay_key = record { fingerprint = str "SHA256:aa"; key_type = str "ssh-ed25519"; first_seen = 5 }

first_visit-IsAccepted : IsAccepted first_visit nothing_known
unfolding check_server_key verify_or_pin get rustmote.Dict.get
first_visit-IsAccepted = refl

first_visit-pins : pin (shake first_visit nothing_known) (str "relay") 22 ≡ some relay_key
unfolding check_server_key verify_or_pin get rustmote.Dict.get rustmote.Dict.insert text_eq endpoint
    decimal
first_visit-pins = refl

other_fingerprint : str "bb" ≢ str "aa"
unfolding text_eq
other_fingerprint e =
    let same : false ≡ true = (text_eq_iff (str "bb") (str "aa")).1 e in ground arith

changed_key_refused_example :
    ((check_server_key impostor.handler impostor.fingerprint impostor.name impostor.at
        (shake_all (elsewhere ∷ []) (shake first_visit nothing_known))).0
      ≡ err (host_key_mismatch (str "relay") 22 (shown first_visit) (shown impostor)))
    × ((shake impostor (shake_all (elsewhere ∷ []) (shake first_visit nothing_known))).known_hosts
        ≡ (shake_all (elsewhere ∷ []) (shake first_visit nothing_known)).known_hosts)
changed_key_refused_example =
    changed_key_refused first_visit nothing_known (elsewhere ∷ []) impostor first_visit-IsAccepted
      refl refl other_fingerprint

pin-shake_all_example :
    pin (shake_all (elsewhere ∷ impostor ∷ []) (shake first_visit nothing_known)) (str "relay") 22
    ≡ some relay_key
pin-shake_all_example =
    pin-shake_all (elsewhere ∷ impostor ∷ []) (shake first_visit nothing_known) (str "relay") 22
      relay_key first_visit-pins

IsAccepted-iff_example : IsAccepted elsewhere nothing_known ↔ (
    ((k : HostKey) × (pin nothing_known (str "nas") 22 ≡ some k)
      × (k.fingerprint ≡ shown elsewhere))
    ⊎ ((pin nothing_known (str "nas") 22 ≡ none) × (strict ≡ trust_on_first_use)))
IsAccepted-iff_example = IsAccepted-iff elsewhere nothing_known

endpoint_injective_example : (str "::1" ≡ str "::1") × (ssh ≡ ssh)
endpoint_injective_example = endpoint_injective (str "::1") (str "::1") ssh ssh refl
