-- ===== src/Cli/ConfigMode/Gate.antt =====
-- crates/rustmote-cli/src/commands/config.rs, `parse_and_gate_mode`: which modes pass.
use rustmote.Prelude.{◌≡◌, ◌↔◌, refl, Bool, true, false, Option, none, some}
use rustmote.Text.{Text}
use rustmote.CredentialMode.{CredentialMode, prompt, keychain, unsafe, from_str, mode_eq}
use rustmote.Cli.{done}
use rustmote.Cli.ConfigMode.{named_mode, gated, parse_and_gate_mode}

passes :
    (mode : Text) (r : Option CredentialMode) (ack_unsafe : Bool) (m : CredentialMode)
    → (gated ack_unsafe (named_mode mode r) ≡ done m)
      ↔ ((r ≡ some m) × (m ≡ unsafe → ack_unsafe ≡ true))
unfolding gated named_mode mode_eq
passes mode none ack_unsafe m = (λ passed. absurd cc, λ known. absurd cc)
passes mode (some prompt) ack_unsafe m = (λ passed. (cc, λ is_unsafe. absurd cc), λ known. cc)
passes mode (some keychain) ack_unsafe m = (λ passed. (cc, λ is_unsafe. absurd cc), λ known. cc)
passes mode (some unsafe) true m = (λ passed. (cc, λ is_unsafe. refl), λ known. cc)
passes mode (some unsafe) false m = (
  λ passed. absurd cc,
  λ known.
      let same : m ≡ unsafe = cc (known.0) in
      let acknowledged : false ≡ true = known.1 same in absurd cc,
)

-- A mode passes exactly if the text names it and, for the unsafe mode, the risk is acknowledged.
pub parse_and_gate_mode_iff :
    (mode : Text) (ack_unsafe : Bool) (m : CredentialMode)
    → (parse_and_gate_mode mode ack_unsafe ≡ done m)
      ↔ ((from_str mode ≡ some m) × (m ≡ unsafe → ack_unsafe ≡ true))
unfolding parse_and_gate_mode
parse_and_gate_mode_iff mode ack_unsafe m = passes mode (from_str mode) ack_unsafe m
