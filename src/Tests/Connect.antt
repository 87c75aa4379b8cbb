-- ===== src/Tests/Connect.antt =====
-- A first connection to a relay, on a disk without files.
use rustmote.Prelude.{◌≡◌, ◌≢◌, refl, ap, arith, [], ◌∷◌, ◌++◌, none, some, inl, true, length}
use rustmote.Text.{Text, str, text_eq, decimal}
use rustmote.Error.{ok}
use rustmote.Effect
use rustmote.Dict
use rustmote.Places.{Places, config_dir, config_path, known_hosts_path}
use rustmote.Disk
use rustmote.Disk.{Disk, make_parent, replace, save_beside, load_from}
use rustmote.Config.{Config, default_config, viewer_override}
use rustmote.Config.Store as ConfigStore
use rustmote.Config.Store.{tmp_path}
use rustmote.Registry.{update_server}
use rustmote.Keyed.{update_first}
use rustmote.KnownHosts.{trust_on_first_use, get, verify_or_pin, endpoint}
use rustmote.KnownHosts.Store as PinStore
use rustmote.Session.HostKeyHandler.{check_server_key}
use rustmote.Session.Auth.{default_key_paths, try_key, try_keys, try_password, authenticate}
use rustmote.Session.Open.{opened, in_world, is_newly_pinned, handler_for, open_session}
use rustmote.Viewer.{
  Machine, command, detect_with_override, search_defaults, default_candidates, which_on_path,
}
use rustmote.Cli.{done, with_context}
use rustmote.Cli.Flow
use rustmote.Cli.Flow.{within}
use rustmote.Cli.Connect.Run.{
  Desk, World, has_default_ssh_keys, resolve_password, open_tunnel, save_if_new, stamp_last_used,
  view, connected, connect_to,
}
use rustmote.Cli.Connect.Run.Stored.{IsDesk, StoredPin}
use rustmote.Cli.Connect.Run.Pinned.{connect_to-StoredPin}
use rustmote.Tests.Credentials.{vault}
use rustmote.Tests.Disk.{disk, disk-IsDisk, empty_disk, pins_format, pins_format-IsFormat}
use rustmote.Tests.Session.{ssh, network, network-IsNetwork, relay, printer_id}

abbrev pub places : Places
places = record {
  config_override = some (str "/d");
  cache_override = none;
  project_config_dir = none;
  project_cache_dir = none;
  home_dir = none;
  join = λ a b. a ++ str "/" ++ b;
}

abbrev machine : Machine
machine = record {
  is_file = λ path. true;
  path_entries = none;
  join = λ a b. a ++ str "/" ++ b;
  succeeds = λ program args. true;
}

-- The default key of the user is there, so no password is asked for; the server takes the key.
abbrev desk : Desk
desk = record {
  disk = disk;
  vault = vault;
  Outside = Unit {0};
  config_format = record { from_toml = λ raw. inl []; to_toml = λ cfg. ok [] };
  pins_format = pins_format;
  places = places;
  ssh = record ssh { authenticate_publickey = λ user key w. (rustmote.Prelude.inr true, w) };
  network = network;
  machine = machine;
  now = λ w. 9;
  is_key_file = λ path w. true;
  spawn = λ command w. (ok tt, w);
  wait = λ w. (ok (true, str "exit status: 0"), w);
  close = λ w. (ok tt, w);
}

abbrev config : Config
config = record { general = default_config.general; servers = relay ∷ []; targets = [] }

abbrev start : World desk
start = record { files = empty_disk; secrets = none; outside = tt }

abbrev end : World desk
end = (connect_to desk config printer_id (str "relay") relay start).1

connects : connect_to desk config printer_id (str "relay") relay start ≡ (done tt, end)
unfolding connect_to resolve_password has_default_ssh_keys open_tunnel save_if_new stamp_last_used
    view connected within Flow.◌>>=◌ with_context Effect.◌>>=◌ PinStore.load PinStore.load_from
    PinStore.save PinStore.save_to ConfigStore.save ConfigStore.save_to tmp_path config_dir
    config_path known_hosts_path Disk.load_from make_parent replace save_beside update_server
    update_first viewer_override detect_with_override command open_session opened in_world
    is_newly_pinned handler_for check_server_key verify_or_pin get Dict.get Dict.insert endpoint
    decimal authenticate try_keys try_key try_password default_key_paths text_eq search_defaults
    default_candidates which_on_path
connects = refl

conf-ne-pins : str "/d/config.toml" ≢ str "/d/known_hosts.toml"
conf-ne-pins same = omega (arith, ap length same)

conf_tmp-ne-pins : tmp_path (str "/d/config.toml") ≢ str "/d/known_hosts.toml"
unfolding tmp_path
conf_tmp-ne-pins same = omega (arith, ap length same)

pins_tmp-ne-pins :
    disk.with_extension (str "/d/known_hosts.toml") (str "toml.tmp") ≢ str "/d/known_hosts.toml"
pins_tmp-ne-pins same = omega (arith, ap length same)

desk-IsDesk : IsDesk desk
unfolding config_path config_dir known_hosts_path
desk-IsDesk = record {
  disk = disk-IsDisk;
  pins_format = pins_format-IsFormat;
  network = network-IsNetwork;
  conf = str "/d/config.toml";
  pins = str "/d/known_hosts.toml";
  conf_is = refl;
  pins_is = refl;
  conf_ne = conf-ne-pins;
  conf_tmp_ne = conf_tmp-ne-pins;
  pins_tmp_ne = pins_tmp-ne-pins;
}

connect_to-StoredPin_example :
    let h = handler_for desk.ssh network relay trust_on_first_use in
    (fingerprint : Text) × desk-IsDesk.network.Presents tt h.host h.port fingerprint
    × StoredPin desk desk-IsDesk h fingerprint end.files
connect_to-StoredPin_example =
    connect_to-StoredPin desk desk-IsDesk config printer_id (str "relay") relay start end connects
