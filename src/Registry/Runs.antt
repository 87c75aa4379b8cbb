-- ===== src/Registry/Runs.antt =====
-- crates/rustmote-core/src/registry.rs: sequences of operations on the registry, and what they keep of
-- its names and ids.
use rustmote.Prelude.{◌≡◌, All, List, [], ◌∷◌, any, Bool-cases, Option-cases, inl, inr}
use rustmote.Text.{Text}
use rustmote.Keyed.{HasDistinctKeys, remove_first, update_first}
use rustmote.Keyed.Laws.{
  push-HasDistinctKeys, remove_first-HasDistinctKeys, update_first-HasDistinctKeys,
}
use rustmote.Server.{RemoteServer}
use rustmote.Target.{Target}
use rustmote.Config.{Config, default_config}
use rustmote.Registry
use rustmote.Registry.{is_named, has_id}

pub record IsRegistry (cfg : Config) : Type 0 where
  pub servers : HasDistinctKeys (λ s. s.name) cfg.servers
  pub targets : HasDistinctKeys (λ t. t.id) cfg.targets

pub data Request : Type 0 where
  add_server : RemoteServer → Request
  remove_server : Text → Request
  update_server : Text → (RemoteServer → RemoteServer) → Request
  add_target : Target → Request
  remove_target : Text → Request

-- A change of a server does not change its name; other requests do not either.
abbrev pub KeepsName : Request → Type 0
KeepsName (add_server s) = Unit
KeepsName (remove_server name) = Unit
KeepsName (update_server name change) = (s : RemoteServer) → (change s).name ≡ s.name
KeepsName (add_target t) = Unit
KeepsName (remove_target id) = Unit

abbrev pub perform : Request → Config → Config
perform (add_server s) cfg = (Registry.add_server s cfg).1
perform (remove_server name) cfg = (Registry.remove_server name cfg).1
perform (update_server name change) cfg = (Registry.update_server name change cfg).1
perform (add_target t) cfg = (Registry.add_target t cfg).1
perform (remove_target id) cfg = (Registry.remove_target id cfg).1

unfoldable pub run : List Request → Config → Config
run [] cfg = cfg
run (r ∷ rest) cfg = run rest (perform r cfg)

pub perform-IsRegistry :
    (r : Request) (cfg : Config) → KeepsName r → IsRegistry cfg → IsRegistry (perform r cfg)
unfolding Registry.add_server Registry.remove_server Registry.update_server Registry.add_target
    Registry.remove_target
perform-IsRegistry (add_server s) cfg keeps h =
    elim (Bool-cases (any (is_named s.name) cfg.servers)) [
      | inl e ↦ rw (e, perform, Registry.add_server) h
      | inr e ↦
          rw (e, perform, Registry.add_server)
            (record {
              servers = push-HasDistinctKeys (λ t. t.name) s cfg.servers e h.servers;
              targets = h.targets;
            })
    ]
perform-IsRegistry (remove_server name) cfg keeps h =
    elim (Option-cases (remove_first (is_named name) cfg.servers)) [
      | inl e ↦ rw (e, perform, Registry.remove_server) h
      | inr ((s, rest), e) ↦
          rw (e, perform, Registry.remove_server)
            (record {
              servers =
                  remove_first-HasDistinctKeys (λ t. t.name) (is_named name) cfg.servers e
                    h.servers;
              targets = h.targets;
            })
    ]
perform-IsRegistry (update_server name change) cfg keeps h =
    elim (Option-cases (update_first (is_named name) change cfg.servers)) [
      | inl e ↦ rw (e, perform, Registry.update_server) h
      | inr (ys, e) ↦
          rw (e, perform, Registry.update_server)
            (record {
              servers =
                  update_first-HasDistinctKeys (λ t. t.name) (is_named name) change cfg.servers e
                    keeps h.servers;
              targets = h.targets;
            })
    ]
perform-IsRegistry (add_target t) cfg keeps h = elim (Bool-cases (any (has_id t.id) cfg.targets)) [
  | inl e ↦ rw (e, perform, Registry.add_target) h
  | inr e ↦
      rw (e, perform, Registry.add_target)
        (record {
          servers = h.servers;
          targets = push-HasDistinctKeys (λ u. u.id) t cfg.targets e h.targets;
        })
]
perform-IsRegistry (remove_target id) cfg keeps h =
    elim (Option-cases (remove_first (has_id id) cfg.targets)) [
      | inl e ↦ rw (e, perform, Registry.remove_target) h
      | inr ((t, rest), e) ↦
          rw (e, perform, Registry.remove_target)
            (record {
              servers = h.servers;
              targets =
                  remove_first-HasDistinctKeys (λ u. u.id) (has_id id) cfg.targets e h.targets;
            })
    ]

pub run-IsRegistry :
    (rs : List Request) (cfg : Config) → All KeepsName rs → IsRegistry cfg → IsRegistry (run rs cfg)
unfolding run
run-IsRegistry [] cfg keep h = h
run-IsRegistry (r ∷ rs) cfg keep h =
    run-IsRegistry rs (perform r cfg) keep.1 (perform-IsRegistry r cfg keep.0 h)

-- Whatever requests an empty configuration has served, of which each change of a server keeps its
-- name, no two of its servers share a name and no two of its targets an id.
pub run-default_config : (rs : List Request) → All KeepsName rs → IsRegistry (run rs default_config)
run-default_config rs keep =
    run-IsRegistry rs default_config keep (record { servers = tt; targets = tt })
