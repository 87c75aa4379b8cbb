-- ===== src/Cli/Connect.antt =====
-- crates/rustmote-cli/src/commands/connect.rs: the target, the relay and the password of a connection.
pub mod Resolved
pub mod Run
use rustmote.Prelude.{Bool, true, false, ◌||◌, Option, none, some, List, ◌++◌, find, if◌then◌else◌}
use rustmote.Text.{Text, str, text_eq}
use rustmote.Error.{Result, ok, err}
use rustmote.Config.{Config}
use rustmote.Registry.{get_target}
use rustmote.Target.{Target}
use rustmote.Viewer.{TargetId, new}
use rustmote.Cli.{CliError, message, CliResult, done, failed, with_context, ◌>>=◌}

-- `|t| t.label.as_deref() == Some(arg)`
unfoldable pub is_labelled : Text → Target → Bool
is_labelled arg t = elim t.label [ none ↦ false | some label ↦ text_eq label arg ]

-- An entry that was found, with its id as a validated one.
unfoldable pub checked : Text → Target → CliResult (TargetId × Option Target)
checked what t = do
  id ←
      with_context (what ++ str " has stored id '" ++ t.id ++ str "' that fails spec §3.5")
        (new t.id)
  done (id, some t)

-- The argument itself as an id.
unfoldable pub standalone : Text → CliResult (TargetId × Option Target)
standalone arg = do
  id ←
      with_context
        (str "'"
          ++ arg
          ++ str "' is neither a registered target id/label nor a valid RustDesk ID (spec §3.5)")
        (new arg)
  done (id, none)

by_label : Config → Text → CliResult (TargetId × Option Target)
by_label cfg arg = elim (find (is_labelled arg) cfg.targets) [
  | some t ↦ checked (str "target with label '" ++ arg ++ str "'") t
  | none ↦ standalone arg
]

unfoldable pub resolve_target : Config → Text → CliResult (TargetId × Option Target)
unfolding by_label
resolve_target cfg arg = elim (get_target cfg arg) [
  | ok t ↦ checked (str "target '" ++ arg ++ str "'") t
  | err e ↦ by_label cfg arg
]

-- `match.via_server`.
via_of : Option Target → Option Text
via_of none = none
via_of (some t) = t.via_server

unfoldable pub resolve_via_name : Option Text → Option Target → Config → CliResult Text
unfolding via_of
resolve_via_name (some v) matched cfg = done v
resolve_via_name none matched cfg = elim (via_of matched) [
  | some v ↦ done v
  | none ↦ elim cfg.general.default_server [
    | some d ↦ done d
    | none ↦ failed (
        message (
          str
            "no relay server resolved: pass --via <server>, set target.via_server, or set general.default_server"))
  ]
]
