-- ===== src/Tests/Session.antt =====
-- A session with one relay, a channel that ends before its exit status, and a target by its label.
use rustmote.Prelude.{
  ◌≡◌, refl, ◌↔◌, [], ◌∷◌, ◌++◌, List, none, some, inr, true, false, Bool, any, ◌||◌,
}
use rustmote.Text.{Text, str, text_eq, decimal, bytes, byte_len, encode_utf8}
use rustmote.Error.{Result, ok, err}
use rustmote.Effect.{◌>>=◌}
use rustmote.Dict
use rustmote.Net.{v4}
use rustmote.Config.{Config, default_config}
use rustmote.Target.{Target}
use rustmote.Server.{RemoteServer}
use rustmote.KnownHosts.{trust_on_first_use, get, verify_or_pin, endpoint}
use rustmote.KnownHosts.Store.{no_known_hosts}
use rustmote.Session.HostKeyHandler.{Shared, check_server_key}
use rustmote.Session.Exec.{ChannelMsg, data_msg, exit_status, eof, close, collect, nothing_yet}
use rustmote.Session.Exec.Collected.{after, collect-before_end}
use rustmote.Session.Auth.{
  AuthMaterial, Ssh, default_key_paths, try_key, try_keys, try_password, authenticate,
}
use rustmote.Session.Auth.LetIn.{IsSteady, path_opens, password_opens, authenticate_iff}
use rustmote.Session.Open.{
  Network, Session, opened, in_world, is_newly_pinned, handler_for, open_session,
}
use rustmote.Session.Open.Pinned.{IsNetwork, IsPinnedTo, HowTrusted, open_session-IsPinnedTo}
use rustmote.Registry.{get_target}
use rustmote.Viewer.{TargetId, new, flatpak, command}
use rustmote.Viewer.Target.{IsTargetId}
use rustmote.Cli.{done, with_context}
use rustmote.Cli.Connect.{is_labelled, checked, resolve_target}
use rustmote.Cli.Connect.Resolved.{IsResolution, launched-IsTargetId}

-- The exit status comes after the end of the stream.
abbrev late_status : List ChannelMsg
late_status = data_msg (str "out") ∷ eof ∷ exit_status 1 ∷ close ∷ []

collect-before_end_example :
    collect late_status nothing_yet ≡ after nothing_yet (data_msg (str "out") ∷ [])
collect-before_end_example = collect-before_end late_status nothing_yet

late_status_lost :
    collect late_status nothing_yet ≡ record { stdout = str "out"; stderr = []; exit_code = 0 }
unfolding collect
late_status_lost = refl

-- A machine with the default RSA key, which the server does not take, and a server that takes the
-- password `pw`.
abbrev pub ssh : Ssh (Unit {0})
ssh = record {
  Key = Unit {0};
  exists = λ path w. text_eq path (str "/h/.ssh/id_rsa");
  load_secret_key = λ path passphrase w. inr tt;
  authenticate_publickey = λ user key w. (inr false, w);
  authenticate_password = λ user password w. (inr (text_eq password (str "pw")), w);
  home_dir = some (str "/h");
  join = λ a b. a ++ str "/" ++ b;
  show_ip = λ ip. str "10.0.0.1";
}

ssh-IsSteady : IsSteady ssh
ssh-IsSteady = record {
  there = λ path. text_eq path (str "/h/.ssh/id_rsa");
  loaded = λ path passphrase. inr tt;
  reply = λ user key. inr false;
  password_reply = λ user password. inr (text_eq password (str "pw"));
  exists_is = λ path w. refl;
  load_is = λ path passphrase w. refl;
  publickey_is = λ user key w. refl;
  password_is = λ user password w. refl;
}

abbrev pub relay : RemoteServer
relay = record {
  name = str "relay";
  host = v4 167772161;
  ssh_port = 22;
  ssh_user = str "root";
  relay_port = 21116;
  relay_key = none;
  created_at = 1;
  last_used = none;
}

abbrev auth : AuthMaterial
auth = record { extra_key_paths = []; key_passphrase = none; password = some (str "pw") }

authenticate_iff_example : ((authenticate ssh relay auth tt).0 ≡ ok tt) ↔ (
    (any (path_opens ssh ssh-IsSteady (str "root") none) (default_key_paths ssh [])
      || password_opens ssh ssh-IsSteady (str "root") (some (str "pw")))
    ≡ true)
authenticate_iff_example = authenticate_iff ssh ssh-IsSteady relay auth tt

-- The callback's answer, as the end of the handshake.
abbrev granted : Result Bool × Shared → Result (Unit {0}) × (Unit {0} × Shared)
granted (ok true, s) = (ok tt, (tt, s))
granted (ok false, s) = (err rustmote.Error.no_config_dir, (tt, s))
granted (err e, s) = (err e, (tt, s))

-- A server that shows the key `aa` at the time 5.
abbrev pub network : Network (Unit {0})
network = record {
  connect = λ host port callback s. granted (callback (str "aa") (str "ssh-ed25519") 5 s.1);
  bind_local = λ w. (ok 40000, w);
}

granted-ok :
    (x : Result Bool × Shared) (s' : Shared) → granted x ≡ (ok tt, (tt, s')) → x ≡ (ok true, s')
granted-ok (ok true, s) s' e = cc
granted-ok (ok false, s) s' e = absurd cc
granted-ok (err why, s) s' e = absurd cc

pub network-IsNetwork : IsNetwork network
network-IsNetwork = record {
  Presents = λ w host port fingerprint. fingerprint ≡ str "aa";
  asked = λ host port callback w w' s s' e. (
    str "aa",
    str "ssh-ed25519",
    5,
    refl,
    granted-ok (callback (str "aa") (str "ssh-ed25519") 5 s) s' e,
  );
}

abbrev session : Session
session = record { local_port = 40000; server_name = str "relay"; forwards_to = 21116 }

abbrev after_open : Shared
after_open = (open_session ssh network relay auth no_known_hosts trust_on_first_use tt).1.1

opens :
    open_session ssh network relay auth no_known_hosts trust_on_first_use tt
    ≡ (ok (session, true), (tt, after_open))
unfolding open_session opened in_world is_newly_pinned handler_for check_server_key verify_or_pin
    get Dict.get Dict.insert endpoint decimal authenticate try_keys try_key try_password
    default_key_paths text_eq ◌>>=◌
opens = refl

open_session-IsPinnedTo_example :
    let h = handler_for ssh network relay trust_on_first_use in
    (str "relay" ≡ str "relay")
    × (session.forwards_to ≡ session.forwards_to)
    × ((fingerprint : Text) × (fingerprint ≡ str "aa")
        × IsPinnedTo h fingerprint after_open.known_hosts)
    × HowTrusted trust_on_first_use no_known_hosts
        (get no_known_hosts h.host h.port)
        after_open.known_hosts
        true
unfolding network-IsNetwork
open_session-IsPinnedTo_example =
    open_session-IsPinnedTo ssh network network-IsNetwork relay auth no_known_hosts
      trust_on_first_use tt tt session true after_open opens

-- One target, with a label.
abbrev printer : Target
printer = record {
  id = str "123456789";
  ip = none;
  label = some (str "voron");
  via_server = none;
  last_seen = none;
}

abbrev config : Config
config = record default_config { targets = printer ∷ [] }

abbrev pub printer_id : TargetId
printer_id = record { raw = str "123456789" }

by_its_label : resolve_target config (str "voron") ≡ done (printer_id, some printer)
unfolding resolve_target get_target is_labelled checked new with_context text_eq byte_len bytes
    encode_utf8
by_its_label = refl

launched-IsTargetId_example :
    ((before : List Text) × ((command flatpak printer_id).args
        ≡ before ++ (str "--connect" ∷ str "123456789" ∷ [])))
    × IsTargetId (str "123456789")
    × IsResolution config (str "voron") printer_id (some printer)
launched-IsTargetId_example =
    launched-IsTargetId config (str "voron") printer_id (some printer) flatpak by_its_label
