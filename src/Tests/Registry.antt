-- ===== src/Tests/Registry.antt =====
-- The registry: a configuration with two servers and a target.
use rustmote.Prelude.{◌≡◌, refl, some, List, [], ◌∷◌}
use rustmote.Text.{str}
use rustmote.Net.{v4}
use rustmote.Server.{RemoteServer, new_server}
use rustmote.Target.{Target, new_target}
use rustmote.Config.{Config, default_config}
use rustmote.Registry.Runs.{Request, IsRegistry, run, run-default_config}
use rustmote.Registry.Directory.{view, answers, expected_all, act_all, run-directory}

abbrev home : RemoteServer
home = new_server 3 (str "home") (v4 1) (str "root") 22 21116

abbrev work : RemoteServer
work = new_server 4 (str "work") (v4 2) (str "root") 22 21116

abbrev desk : Target
desk = new_target (str "desk")

abbrev requests : List Request
requests = Request.add_server home ∷ Request.add_server work ∷ Request.add_target desk ∷ []

abbrev two_servers : Config
two_servers = run requests default_config

two_servers-IsRegistry : IsRegistry two_servers
two_servers-IsRegistry = run-default_config requests (tt, (tt, (tt, tt)))

abbrev with_key : RemoteServer → RemoteServer
with_key s = record s { relay_key = some (str "key") }

-- The second server of a name is refused, so the run has a guard to hold.
abbrev doubled : List Request
doubled =
    Request.add_server home
    ∷ Request.add_server home
    ∷ Request.update_server (str "home") with_key
    ∷ []

run-default_config_example : IsRegistry (run doubled default_config)
run-default_config_example = run-default_config doubled (tt, (tt, ((λ s. refl), tt)))

-- A second server of a name, a change, a server that is not there, and a target that goes.
abbrev mixed : List Request
mixed =
    Request.add_server home
    ∷ Request.update_server (str "work") with_key
    ∷ Request.remove_server (str "attic")
    ∷ Request.remove_target (str "desk")
    ∷ []

run-directory_example :
    (answers mixed two_servers ≡ expected_all mixed (view two_servers))
    × (view (run mixed two_servers) ≡ act_all mixed (view two_servers))
run-directory_example =
    run-directory mixed two_servers (tt, ((λ s. refl), (tt, (tt, tt)))) two_servers-IsRegistry
