-- ===== src/Registry.antt =====
-- crates/rustmote-core/src/registry.rs: the operations on the servers and targets of a `Config`.
-- A method with `&mut self` is an operation on the configuration.
pub mod Servers
pub mod Targets
pub mod Runs
pub mod Directory
use rustmote.Prelude.{
  Bool, true, false, Option, none, some, List, [], ◌∷◌, ◌++◌, any, find, if◌then◌else◌,
}
use rustmote.Text.{Text}
use rustmote.Error.{
  Result, ok, err, unknown_server, server_already_exists, unknown_target, target_already_exists,
}
use rustmote.Effect.{Io}
use rustmote.Keyed.{has_key, remove_first, update_first}
use rustmote.Server.{RemoteServer}
use rustmote.Target.{Target}
use rustmote.Config.{Config}

-- The test `|s| s.name == name`, and `|t| t.id == id`.
abbrev pub is_named : Text → RemoteServer → Bool
is_named = has_key (λ s. s.name)

abbrev pub has_id : Text → Target → Bool
has_id = has_key (λ t. t.id)

unfoldable pub get_server : Config → Text → Result RemoteServer
get_server cfg name = elim (find (is_named name) cfg.servers) [
  | none ↦ err (unknown_server name)
  | some s ↦ ok s
]

unfoldable pub add_server : RemoteServer → Io Config (Unit {0})
add_server server cfg =
    if any (is_named server.name) cfg.servers
    then (err (server_already_exists server.name), cfg)
    else (ok tt, record cfg { servers = cfg.servers ++ (server ∷ []) })

unfoldable pub remove_server : Text → Io Config RemoteServer
remove_server name cfg = elim (remove_first (is_named name) cfg.servers) [
  | none ↦ (err (unknown_server name), cfg)
  | some (s, rest) ↦ (ok s, record cfg { servers = rest })
]

unfoldable pub update_server : Text → (RemoteServer → RemoteServer) → Io Config (Unit {0})
update_server name mutate cfg = elim (update_first (is_named name) mutate cfg.servers) [
  | none ↦ (err (unknown_server name), cfg)
  | some servers ↦ (ok tt, record cfg { servers = servers })
]

unfoldable pub get_target : Config → Text → Result Target
get_target cfg id = elim (find (has_id id) cfg.targets) [
  | none ↦ err (unknown_target id)
  | some t ↦ ok t
]

unfoldable pub add_target : Target → Io Config (Unit {0})
add_target target cfg =
    if any (has_id target.id) cfg.targets
    then (err (target_already_exists target.id), cfg)
    else (ok tt, record cfg { targets = cfg.targets ++ (target ∷ []) })

unfoldable pub remove_target : Text → Io Config Target
remove_target id cfg = elim (remove_first (has_id id) cfg.targets) [
  | none ↦ (err (unknown_target id), cfg)
  | some (t, rest) ↦ (ok t, record cfg { targets = rest })
]
