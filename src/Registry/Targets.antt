-- ===== src/Registry/Targets.antt =====
-- What a lookup of a target answers after each operation of the registry.
use rustmote.Prelude.{◌≡◌, arith, if◌then◌else◌}
use rustmote.Text.{Text, text_eq}
use rustmote.Text.Laws.{text_eq_iff}
use rustmote.Error.{Result, ok, err, unknown_target}
use rustmote.Keyed.{HasDistinctKeys}
use rustmote.Keyed.Laws.{find-none_of_any, any_iff_find}
use rustmote.Keyed.Lookup.{find-push_key, removed-remove_first, find-remove_first}
use rustmote.Target.{Target}
use rustmote.Config.{Config}
use rustmote.Registry.{has_id, get_target, add_target, remove_target}

-- The target that is there already, or else the new one.
abbrev pub or_added : Target → Result Target → Result Target
or_added t (ok old) = ok old
or_added t (err e) = ok t

module _ (cfg : Config) where
  -- After an attempt to add `t`, its id leads to the target that had the id before, or to `t`
  -- where there was none; every other id leads where it led before.
  pub get_target-add_target :
      (t : Target) (j : Text)
      → get_target (add_target t cfg).1 j
        ≡ (if text_eq t.id j then or_added t (get_target cfg j) else get_target cfg j)
  unfolding get_target add_target
  get_target-add_target t j = ground (
    arith,
    find-push_key (λ u. u.id) j t cfg.targets,
    find-none_of_any (has_id t.id) cfg.targets,
    text_eq_iff t.id j,
    any_iff_find (has_id j) cfg.targets,
    any_iff_find (has_id t.id) cfg.targets,
  )

  -- Removing an id answers what a lookup of it answered, and with distinct ids it leaves no
  -- target of this id and every other one.
  pub get_target-remove_target :
      (id j : Text)
      → HasDistinctKeys (λ t. t.id) cfg.targets
      → ((remove_target id cfg).0 ≡ get_target cfg id)
        × (get_target (remove_target id cfg).1 j
            ≡ (if text_eq id j then err (unknown_target j) else get_target cfg j))
  unfolding get_target remove_target
  get_target-remove_target id j d = ground (
    arith,
    removed-remove_first (has_id id) cfg.targets,
    find-remove_first (λ t. t.id) id j cfg.targets d,
  )
