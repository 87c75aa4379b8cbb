-- ===== src/Server.antt =====
-- crates/rustmote-core/src/registry.rs, `RemoteServer`: a relay server, and the names it may have.
pub mod Names
use rustmote.Prelude.{ℕ, Bool, true, false, ◌&&◌, ◌||◌, Option, none, all, leb, ◌==◌, if◌then◌else◌}
use rustmote.Text.{Text, is_ascii_alphanumeric, bytes, byte_len}
use rustmote.Time.{DateTime}
use rustmote.Net.{IpAddr}
use rustmote.Error.{Result, ok, err, invalid_server_name}

pub record RemoteServer : Type 0 where
  pub name : Text
  pub host : IpAddr
  pub ssh_port : ℕ
  pub ssh_user : Text
  pub relay_port : ℕ
  pub relay_key : Option Text
  pub created_at : DateTime
  pub last_used : Option DateTime

abbrev pub default_ssh_port : ℕ
default_ssh_port = 22

abbrev pub default_relay_port : ℕ
default_relay_port = 21116

-- The bytes that a name may have.
abbrev pub is_name_byte : ℕ → Bool
is_name_byte b = is_ascii_alphanumeric b || b == b'_' || b == b'-'

unfoldable pub validate_name : Text → Result (Unit {0})
validate_name name =
    let len = byte_len name in
    if (leb 1 len && leb len 64) && all is_name_byte (bytes name)
    then ok tt
    else err (invalid_server_name name)

-- `RemoteServer::new`, at the time `now`.
unfoldable pub new_server : DateTime → Text → IpAddr → Text → ℕ → ℕ → RemoteServer
new_server now name host ssh_user ssh_port relay_port = record {
  name = name;
  host = host;
  ssh_port = ssh_port;
  ssh_user = ssh_user;
  relay_port = relay_port;
  relay_key = none;
  created_at = now;
  last_used = none;
}
