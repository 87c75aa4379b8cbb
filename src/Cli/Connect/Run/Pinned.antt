-- ===== src/Cli/Connect/Run/Pinned.antt =====
-- crates/rustmote-cli/src/commands/connect.rs: after a connection the server's key is among the
-- stored pins.
use rustmote.Prelude.{◌≡◌, refl, sym, ap, ◌∙◌, Bool, Option, none, []}
use mathlib.Core.Path.{subst}
use rustmote.Text.{Text, str}
use rustmote.Error.{ok}
use rustmote.Disk.{Disk, load_from}
use rustmote.Disk.Atomic.{load_from_same}
use rustmote.Config.{Config}
use rustmote.KnownHosts.{KnownHosts, HostKey, get, trust_on_first_use}
use rustmote.KnownHosts.Store as PinStore
use rustmote.KnownHosts.Store.{no_known_hosts}
use rustmote.Server.{RemoteServer}
use rustmote.Session.HostKeyHandler.{Handler}
use rustmote.Session.Auth.{AuthMaterial}
use rustmote.Session.Open.{handler_for, Session}
use rustmote.Session.Open.Pinned.{IsPinnedTo, HowTrusted, open_session-IsPinnedTo}
use rustmote.Viewer.{TargetId}
use rustmote.Cli.{done}
use rustmote.Cli.Flow.{Leaves-ran, within-eq-done, >>=-eq-done}
use rustmote.Cli.Connect.Run.{Desk, World, on_disk, connected, connect_to, open_tunnel}
use rustmote.Cli.Connect.Run.Stored.{
  IsDesk, StoredPin, StoredPin-same, pins_loaded, config_saved-file, save_if_new-StoredPin,
}
use rustmote.Cli.Connect.Run.Steps.{
  view-files, stamp_last_used-files, resolve_password-Leaves, open_tunnel-opened,
}

module _ (K : Desk) (desk : IsDesk K) where
  connected-StoredPin :
      (h : Handler) (fingerprint : Text) (cfg : Config) (id : TargetId) (via : Text)
      (session : Session) (newly : Bool) (kh after : KnownHosts) (was : Option HostKey)
      (w w' : World K)
      → load_from K.disk K.pins_format no_known_hosts desk.pins w.files ≡ (ok kh, w.files)
      → IsPinnedTo h fingerprint after
      → HowTrusted trust_on_first_use kh was after newly
      → connected K cfg id via (session, newly, after) w ≡ (done tt, w')
      → StoredPin K desk h fingerprint w'.files
  unfolding connected
  connected-StoredPin h fingerprint cfg id via session newly kh after was w w' loads is_pinned how
        success =
      let (u, w1, saved, rest) = >>=-eq-done _ _ success in
      let (cfg', w2, stamped, rest') = >>=-eq-done _ _ rest in
      let (u', w3, config_kept, viewed) = >>=-eq-done _ _ rest' in
      let (files, config_saves, left) = within-eq-done _ _ _ _ config_kept in
      let stored =
        save_if_new-StoredPin K desk h fingerprint kh after was newly w w1 loads is_pinned how
          saved in
      let file = λ (f : Disk.World K.disk). desk.disk.file f desk.pins in
      let after_stamp : file w2.files ≡ file w1.files =
        ap file (Leaves-ran _ _ w1 w2 (stamp_last_used-files K via cfg) stamped) in
      let after_save : file w3.files ≡ file w2.files =
        ap (λ (w : World K). file w.files) left
        ∙ config_saved-file K desk cfg' w2.files files config_saves in
      let after_view : file w'.files ≡ file w3.files =
        ap file (Leaves-ran _ _ w3 w' (view-files K cfg' id) viewed) in
      StoredPin-same K desk h fingerprint w1.files w'.files (after_view ∙ after_save ∙ after_stamp)
        stored

  -- With the pins that were loaded, from the tunnel on.
  tunnelled-StoredPin :
      (cfg : Config) (id : TargetId) (via : Text) (server : RemoteServer) (auth : AuthMaterial)
      (kh : KnownHosts) (w w1 w' : World K) (session : Session) (newly : Bool) (after : KnownHosts)
      → load_from K.disk K.pins_format no_known_hosts desk.pins w.files ≡ (ok kh, w.files)
      → open_tunnel K server auth kh w ≡ (done (session, newly, after), w1)
      → connected K cfg id via (session, newly, after) w1 ≡ (done tt, w')
      → let h = handler_for K.ssh K.network server trust_on_first_use in
        (fingerprint : Text) × desk.network.Presents w.outside h.host h.port fingerprint
        × StoredPin K desk h fingerprint w'.files
  tunnelled-StoredPin cfg id via server auth kh w w1 w' session newly after loads tunnelled
        then_connected =
      let h = handler_for K.ssh K.network server trust_on_first_use in
      let (same_files, (outside, shared, opens, same_pins)) =
        open_tunnel-opened K server auth kh after session newly w w1 tunnelled in
      let (named, forwards, (fingerprint, presents, is_pinned), how) =
        open_session-IsPinnedTo K.ssh K.network desk.network server auth kh trust_on_first_use
          w.outside outside session newly shared opens in
      let was = get kh h.host h.port in
      let loads' =
        subst (λ f. load_from K.disk K.pins_format no_known_hosts desk.pins f ≡ (ok kh, f))
          (sym same_files) loads in
      (
        fingerprint,
        presents,
        connected-StoredPin h fingerprint cfg id via session newly kh after was w1 w' loads'
            (subst (IsPinnedTo h fingerprint) same_pins is_pinned)
            (subst (λ kh'. HowTrusted trust_on_first_use kh was kh' newly) same_pins how)
            then_connected,
      )

  -- The pins that were loaded, and nothing else.
  loaded_pins :
      (w w' : World K) (kh : KnownHosts)
      → on_disk K (str "loading known_hosts.toml") (PinStore.load K.disk K.pins_format K.places) w
        ≡ (done kh, w')
      → (w' ≡ w)
        × (load_from K.disk K.pins_format no_known_hosts desk.pins w.files ≡ (ok kh, w.files))
  loaded_pins w w' kh success =
      let (files, loads, left) = within-eq-done _ _ _ _ success in
      let loads' = sym (pins_loaded K desk w.files) ∙ loads in
      let (same, again) =
        load_from_same K.disk desk.disk K.pins_format no_known_hosts desk.pins w.files files kh
          loads' in
      (
        left ∙ ap (λ f. record { files = f; secrets = w.secrets; outside = w.outside }) same,
        again w.files refl,
      )

  -- Where what the desk calls behaves (the disk keeps what it is given, the TOML of the pins reads
  -- back, the files have different paths, and the SSH crate shows the callback only keys that the
  -- server presented and asks it in every handshake that succeeds): after a connection to a server
  -- that succeeded, the server had presented a key, and the pins that the next load gives bind its
  -- endpoint to this key, whether it was pinned before or is new.
  pub connect_to-StoredPin :
      (cfg : Config) (id : TargetId) (via : Text) (server : RemoteServer) (w w' : World K)
      → connect_to K cfg id via server w ≡ (done tt, w')
      → let h = handler_for K.ssh K.network server trust_on_first_use in
        (fingerprint : Text) × desk.network.Presents w.outside h.host h.port fingerprint
        × StoredPin K desk h fingerprint w'.files
  unfolding connect_to
  connect_to-StoredPin cfg id via server w w' success =
      let h = handler_for K.ssh K.network server trust_on_first_use in
      let (password, w1, asked, rest) = >>=-eq-done _ _ success in
      let (kh, w2, loading, rest') = >>=-eq-done _ _ rest in
      let (opened, w3, tunnelled, then_connected) = >>=-eq-done _ _ rest' in
      let auth : AuthMaterial = record {
        extra_key_paths = [];
        key_passphrase = none;
        password = password;
      } in
      let (unmoved, loads) = loaded_pins w1 w2 kh loading in
      let tunnelled' =
        subst (λ v. open_tunnel K server auth kh v ≡ (done opened, w3)) unmoved tunnelled in
      let (fingerprint, presents, stored) =
        tunnelled-StoredPin cfg id via server auth kh w1 w3 w' opened.0 opened.1 opened.2 loads
          tunnelled' then_connected in
      let same_outside : w1.outside ≡ w.outside =
        ap (λ x. x.1) (Leaves-ran _ _ w w1 (resolve_password-Leaves K cfg server) asked) in
      (
        fingerprint,
        subst (λ o. desk.network.Presents o h.host h.port fingerprint) same_outside presents,
        stored,
      )
