-- ===== src/KnownHosts/Endpoint.antt =====
-- The keys of the store: no two endpoints share one.
use rustmote.Prelude.{ℕ, ◌≡◌, refl}
use rustmote.Text.{Text, is_ascii_digit, decimal}
use rustmote.Text.Split.{contains-false_of_all, separated_right}
use rustmote.Text.Decimal.{decimal_digits, decimal_injective}
use rustmote.KnownHosts.{endpoint}

-- Two endpoints with the same key in the store have the same host and the same port, also where a
-- host has colons, as an IPv6 address does.
pub endpoint_injective :
    (host host' : Text) (port port' : ℕ)
    → endpoint host port ≡ endpoint host' port'
    → (host ≡ host') × (port ≡ port')
unfolding endpoint
endpoint_injective host host' port port' e =
    let free =
      λ (p : ℕ). contains-false_of_all is_ascii_digit (decimal p) b':' refl (decimal_digits p) in
    let (same_host, same_port) =
      separated_right host host' (decimal port) (decimal port') b':' (free port) (free port') e in
    (same_host, decimal_injective port port' same_port)
