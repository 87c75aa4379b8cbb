-- ===== src/Target.antt =====
-- crates/rustmote-core/src/target.rs: a machine that is reached through a relay.
use rustmote.Prelude.{Option, none}
use rustmote.Text.{Text}
use rustmote.Time.{DateTime}
use rustmote.Net.{IpAddr}

pub record Target : Type 0 where
  pub id : Text
  pub ip : Option IpAddr
  pub label : Option Text
  pub via_server : Option Text
  pub last_seen : Option DateTime

unfoldable pub new_target : Text → Target
new_target id = record { id = id; ip = none; label = none; via_server = none; last_seen = none }
