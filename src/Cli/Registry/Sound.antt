-- ===== src/Cli/Registry/Sound.antt =====
-- crates/rustmote-cli/src/commands/server.rs and target.rs: what they make of a sound configuration.
use rustmote.Prelude.{
  ◌≡◌, Bool, Option, none, some, List, [], ◌∷◌, All, All-append, arith, Bool-cases, Option-cases,
  inl, inr, any,
}
use mathlib.Core.Path.{subst}
use rustmote.Text.{Text, str}
use rustmote.Error.{Result, ok, err}
use rustmote.Keyed.{remove_first}
use rustmote.Config.{Config}
use rustmote.Server.{RemoteServer, validate_name}
use rustmote.Target.{Target}
use rustmote.Registry
use rustmote.Registry.{is_named, has_id}
use rustmote.Registry.Runs.{
  IsRegistry, perform-IsRegistry, add_server, remove_server, add_target, remove_target,
}
use rustmote.Viewer.Target.{IsTargetId}
use rustmote.CredentialMode.{CredentialMode, mode_eq}
use rustmote.Cli.ConfigMode.{apply_mode}
use rustmote.Cli.Registry.OnDisk.{KeepsConfig}
use rustmote.Cli.{CliResult-cases, CliResult, done, failed, with_context}
use rustmote.Cli.Registry.{changed, check_via, with_target}

-- Names and ids are distinct, and all are accepted ones.
pub record IsSound (cfg : Config) : Type 0 where
  pub registry : IsRegistry cfg
  pub names : All (λ (s : RemoteServer). validate_name s.name ≡ ok tt) cfg.servers
  pub ids : All (λ (t : Target). IsTargetId t.id) cfg.targets

-- A change that keeps a configuration sound.
abbrev pub KeepsSound : (Config → CliResult Config) → Type 0
KeepsSound = KeepsConfig IsSound

pub changed-done :
    {A : Type 0} (text : Text) (x : Result A × Config) (cfg : Config)
    → changed text x ≡ done cfg
    → x.1 ≡ cfg
unfolding changed with_context
changed-done text (ok a, c) cfg success = cc
changed-done text (err e, c) cfg success = absurd cc

module _ {A : Type 0} where
  remove_first-All :
      (P : A → Type 0) (p : A → Bool) (xs : List A) (a : A) (rest : List A)
      → remove_first p xs ≡ some (a, rest)
      → All P xs
      → All P rest
  unfolding remove_first
  remove_first-All P p [] a rest found h = absurd cc
  remove_first-All P p (x ∷ xs) a rest found h = elim (Bool-cases (p x)) [
    | inl here ↦
        let first : ◌≡◌ {A = Option (A × List A)} (some (x, xs)) (some (a, rest)) =
          rw (remove_first, here) at found in
        let same : xs ≡ rest = cc in subst (All P) same h.1
    | inr other ↦ elim (Option-cases (remove_first p xs)) [
      | inl missing ↦ absurd (ground (arith, other, missing))
      | inr ((b, r), later) ↦
          let found' : ◌≡◌ {A = Option (A × List A)} (some (b, x ∷ r)) (some (a, rest)) =
            rw (remove_first, other, later) at found in
          let same : x ∷ r ≡ rest = cc in
          subst (All P) same (h.0, remove_first-All P p xs b r later h.1)
    ]
  ]

abbrev IsNamed : RemoteServer → Type 0
IsNamed s = validate_name s.name ≡ ok tt

abbrev IsIdentified : Target → Type 0
IsIdentified t = IsTargetId t.id

pub add_server-KeepsSound :
    (text : Text) (s : RemoteServer)
    → validate_name s.name ≡ ok tt
    → KeepsSound (λ cfg. changed text (Registry.add_server s cfg))
unfolding Registry.add_server
add_server-KeepsSound text s valid cfg cfg' sound success =
    let left : (Registry.add_server s cfg).1 ≡ cfg' = changed-done text _ cfg' success in
    let registry = perform-IsRegistry (add_server s) cfg tt sound.registry in
    subst IsSound left (elim (Bool-cases (any (is_named s.name) cfg.servers)) [
      | inl taken ↦ rw (Registry.add_server, taken) sound
      | inr free ↦ record {
        registry = registry;
        names =
            rw (Registry.add_server, free)
              (All-append IsNamed cfg.servers (s ∷ []) sound.names (valid, tt));
        ids = rw (Registry.add_server, free) sound.ids;
      }
    ])

add_target-KeepsSound :
    (text : Text) (t : Target)
    → IsTargetId t.id
    → KeepsSound (λ cfg. changed text (Registry.add_target t cfg))
unfolding Registry.add_target
add_target-KeepsSound text t valid cfg cfg' sound success =
    let left : (Registry.add_target t cfg).1 ≡ cfg' = changed-done text _ cfg' success in
    let registry = perform-IsRegistry (add_target t) cfg tt sound.registry in
    subst IsSound left (elim (Bool-cases (any (has_id t.id) cfg.targets)) [
      | inl taken ↦ rw (Registry.add_target, taken) sound
      | inr free ↦ record {
        registry = registry;
        names = rw (Registry.add_target, free) sound.names;
        ids =
            rw (Registry.add_target, free)
              (All-append IsIdentified cfg.targets (t ∷ []) sound.ids (valid, tt));
      }
    ])

pub remove_server-KeepsSound :
    (text name : Text) → KeepsSound (λ cfg. changed text (Registry.remove_server name cfg))
unfolding Registry.remove_server
remove_server-KeepsSound text name cfg cfg' sound success =
    let left : (Registry.remove_server name cfg).1 ≡ cfg' = changed-done text _ cfg' success in
    let registry = perform-IsRegistry (remove_server name) cfg tt sound.registry in
    subst IsSound left (elim (Option-cases (remove_first (is_named name) cfg.servers)) [
      | inl missing ↦ rw (Registry.remove_server, missing) sound
      | inr ((s, rest), found) ↦ record {
        registry = registry;
        names =
            rw (Registry.remove_server, found)
              (remove_first-All IsNamed (is_named name) cfg.servers s rest found sound.names);
        ids = rw (Registry.remove_server, found) sound.ids;
      }
    ])

pub remove_target-KeepsSound :
    (text id : Text) → KeepsSound (λ cfg. changed text (Registry.remove_target id cfg))
unfolding Registry.remove_target
remove_target-KeepsSound text id cfg cfg' sound success =
    let left : (Registry.remove_target id cfg).1 ≡ cfg' = changed-done text _ cfg' success in
    let registry = perform-IsRegistry (remove_target id) cfg tt sound.registry in
    subst IsSound left (elim (Option-cases (remove_first (has_id id) cfg.targets)) [
      | inl missing ↦ rw (Registry.remove_target, missing) sound
      | inr ((t, rest), found) ↦ record {
        registry = registry;
        names = rw (Registry.remove_target, found) sound.names;
        ids =
            rw (Registry.remove_target, found)
              (remove_first-All IsIdentified (has_id id) cfg.targets t rest found sound.ids);
      }
    ])

pub with_target-KeepsSound :
    (id : Text) (label via : Option Text) → IsTargetId id → KeepsSound (with_target id label via)
unfolding with_target
with_target-KeepsSound id label via valid cfg cfg' sound success =
    let t : Target = record {
      id = id;
      ip = none;
      label = label;
      via_server = via;
      last_seen = none;
    } in
    let text = str "adding target to registry" in
    elim (CliResult-cases (check_via cfg via)) [
      | inl (e, missing) ↦
          let refused : failed e ≡ done cfg' = rw (with_target, missing) at success in absurd cc
      | inr (u, there) ↦
          let added : changed text (Registry.add_target t cfg) ≡ done cfg' =
            rw (with_target, there) at success in
          add_target-KeepsSound text t valid cfg cfg' sound added
    ]

-- The mode is no part of what is sound.
pub apply_mode-IsSound :
    (m : CredentialMode) (cfg : Config) → IsSound cfg → IsSound (apply_mode m cfg).1
unfolding apply_mode
apply_mode-IsSound m cfg sound = elim (Bool-cases (mode_eq cfg.general.credential_mode m)) [
  | inl same ↦ rw (apply_mode, same) sound
  | inr new ↦
      rw (apply_mode, new)
        (record {
          registry = record { servers = sound.registry.servers; targets = sound.registry.targets };
          names = sound.names;
          ids = sound.ids;
        })
]
