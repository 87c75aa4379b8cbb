-- ===== src/Registry/Directory.antt =====
-- crates/rustmote-core/src/registry.rs: the registry as two directories, of which only the lookups show.
use rustmote.Prelude.{◌≡◌, refl, ap, ◌∙◌, arith, List, [], ◌∷◌, All, if◌then◌else◌}
use rustmote.Text.{Text, text_eq}
use rustmote.Error.{
  RustmoteError, Result, ok, err, unknown_server, server_already_exists, unknown_target,
  target_already_exists, ◌>>◌,
}
use rustmote.Keyed.Laws.{find-none_of_any, any_iff_find}
use rustmote.Server.{RemoteServer}
use rustmote.Target.{Target}
use rustmote.Config.{Config}
use rustmote.Registry
use rustmote.Registry.{is_named, has_id, get_server, get_target}
use rustmote.Registry.Servers
use rustmote.Registry.Servers.{
  map_ok, get_server-add_server, get_server-remove_server, get_server-update_server,
}
use rustmote.Registry.Targets
use rustmote.Registry.Targets.{get_target-add_target, get_target-remove_target}
use rustmote.Registry.Runs.{
  Request, add_server, remove_server, update_server, add_target, remove_target, KeepsName, perform,
  run, IsRegistry, perform-IsRegistry,
}

-- What each name and each id leads to.
pub record Directory : Type 0 where
  pub server : Text → Result RemoteServer
  pub target : Text → Result Target

-- What the lookups of a configuration show.
abbrev pub view : Config → Directory
view cfg = record { server = get_server cfg; target = get_target cfg }

-- Whether a request succeeds, as the program answers.
answer : Request → Config → Result (Unit {0})
answer (add_server s) cfg = (Registry.add_server s cfg).0
answer (remove_server name) cfg = (Registry.remove_server name cfg).0 >> ok tt
answer (update_server name change) cfg = (Registry.update_server name change cfg).0
answer (add_target t) cfg = (Registry.add_target t cfg).0
answer (remove_target id) cfg = (Registry.remove_target id cfg).0 >> ok tt

-- A key may be added where a lookup of it fails.
abbrev if_missing : {A : Type 0} → RustmoteError → Result A → Result (Unit {0})
if_missing exists (ok a) = err exists
if_missing exists (err e) = ok tt

-- The same on the directories alone.
abbrev expected : Request → Directory → Result (Unit {0})
expected (add_server s) d = if_missing (server_already_exists s.name) (d.server s.name)
expected (remove_server name) d = d.server name >> ok tt
expected (update_server name change) d = d.server name >> ok tt
expected (add_target t) d = if_missing (target_already_exists t.id) (d.target t.id)
expected (remove_target id) d = d.target id >> ok tt

abbrev act : Request → Directory → Directory
act (add_server s) d = record d {
  server = λ j. if text_eq s.name j then Servers.or_added s (d.server j) else d.server j;
}
act (remove_server name) d = record d {
  server = λ j. if text_eq name j then err (unknown_server j) else d.server j;
}
act (update_server name change) d = record d {
  server = λ j. if text_eq name j then map_ok change (d.server j) else d.server j;
}
act (add_target t) d = record d {
  target = λ j. if text_eq t.id j then Targets.or_added t (d.target j) else d.target j;
}
act (remove_target id) d = record d {
  target = λ j. if text_eq id j then err (unknown_target j) else d.target j;
}

pub answers : List Request → Config → List (Result (Unit {0}))
answers [] cfg = []
answers (r ∷ rest) cfg = answer r cfg ∷ answers rest (perform r cfg)

abbrev pub expected_all : List Request → Directory → List (Result (Unit {0}))
expected_all [] d = []
expected_all (r ∷ rest) d = expected r d ∷ expected_all rest (act r d)

abbrev pub act_all : List Request → Directory → Directory
act_all [] d = d
act_all (r ∷ rest) d = act_all rest (act r d)

with_servers :
    (cfg cfg' : Config) (server : Text → Result RemoteServer)
    → ((j : Text) → get_server cfg' j ≡ server j)
    → ((j : Text) → get_target cfg' j ≡ get_target cfg j)
    → view cfg' ≡ record { server = server; target = get_target cfg }
with_servers cfg cfg' server by_name by_id =
    λ i. record { server = λ j. by_name j i; target = λ j. by_id j i }

with_targets :
    (cfg cfg' : Config) (target : Text → Result Target)
    → ((j : Text) → get_server cfg' j ≡ get_server cfg j)
    → ((j : Text) → get_target cfg' j ≡ target j)
    → view cfg' ≡ record { server = get_server cfg; target = target }
with_targets cfg cfg' target by_name by_id =
    λ i. record { server = λ j. by_name j i; target = λ j. by_id j i }

-- After a request the lookups show what the directories say.
view-perform :
    (r : Request) (cfg : Config)
    → KeepsName r
    → IsRegistry cfg
    → view (perform r cfg) ≡ act r (view cfg)
unfolding get_server get_target Registry.add_server Registry.remove_server Registry.update_server
    Registry.add_target Registry.remove_target
view-perform (add_server s) cfg keeps h =
    with_servers cfg (perform (add_server s) cfg) _ (get_server-add_server cfg s)
      (λ j. ground arith)
view-perform (remove_server name) cfg keeps h =
    with_servers cfg (perform (remove_server name) cfg) _
      (λ j. (get_server-remove_server cfg name j h.servers).1) (λ j. ground arith)
view-perform (update_server name change) cfg keeps h =
    with_servers cfg (perform (update_server name change) cfg) _
      (λ j. (get_server-update_server cfg name j change keeps).1) (λ j. ground arith)
view-perform (add_target t) cfg keeps h =
    with_targets cfg (perform (add_target t) cfg) _ (λ j. ground arith)
      (get_target-add_target cfg t)
view-perform (remove_target id) cfg keeps h =
    with_targets cfg (perform (remove_target id) cfg) _ (λ j. ground arith)
      (λ j. (get_target-remove_target cfg id j h.targets).1)

-- A request is answered as the directories say.
answer-expected :
    (r : Request) (cfg : Config)
    → KeepsName r
    → IsRegistry cfg
    → answer r cfg ≡ expected r (view cfg)
unfolding answer get_server get_target Registry.add_server Registry.add_target
answer-expected (add_server s) cfg keeps h = ground (
  arith,
  find-none_of_any (is_named s.name) cfg.servers,
  any_iff_find (is_named s.name) cfg.servers,
)
answer-expected (remove_server name) cfg keeps h =
    ap (λ a. a >> ok tt) (get_server-remove_server cfg name name h.servers).0
answer-expected (update_server name change) cfg keeps h =
    (get_server-update_server cfg name name change keeps).0
answer-expected (add_target t) cfg keeps h =
    ground
      (arith, find-none_of_any (has_id t.id) cfg.targets, any_iff_find (has_id t.id) cfg.targets)
answer-expected (remove_target id) cfg keeps h =
    ap (λ a. a >> ok tt) (get_target-remove_target cfg id id h.targets).0

-- With distinct names and ids, any sequence of requests of which each change of a server keeps its
-- name is answered as by two directories, which know nothing of lists or of order, and leaves the
-- lookups that the directories show.
pub run-directory :
    (rs : List Request) (cfg : Config)
    → All KeepsName rs
    → IsRegistry cfg
    → (answers rs cfg ≡ expected_all rs (view cfg)) × (view (run rs cfg) ≡ act_all rs (view cfg))
unfolding answers run
run-directory [] cfg keep h = (refl, refl)
run-directory (r ∷ rest) cfg (keeps, keep) h =
    let first = view-perform r cfg keeps h in
    let (said, shown) =
      run-directory rest (perform r cfg) keep (perform-IsRegistry r cfg keeps h) in
    (
      rw (answer-expected r cfg keeps h, said)
          (ap (λ d. expected r (view cfg) ∷ expected_all rest d) first),
      shown ∙ ap (act_all rest) first,
    )
