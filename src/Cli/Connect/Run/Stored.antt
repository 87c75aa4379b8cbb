-- ===== src/Cli/Connect/Run/Stored.antt =====
-- crates/rustmote-cli/src/commands/connect.rs: what the file of the pins says along a connection.
use rustmote.Prelude.{◌≡◌, ◌≢◌, refl, sym, ◌∙◌, inl, inr, Bool, Option}
use mathlib.Core.Path.{subst}
use rustmote.Text.{Text, str}
use rustmote.Error.{ok}
use rustmote.Effect.{◌>>=◌}
use rustmote.Effect.Keeps.{Keeps, Keeps-bind, Keeps-lift}
use rustmote.Places.{config_path, known_hosts_path}
use rustmote.Disk.{Disk, load_from}
use rustmote.Disk.Atomic.{IsDisk, IsFormat, Keeps-make_parent, Keeps-replace, load_from_same}
use rustmote.Config.{Config}
use rustmote.Config.Store as ConfigStore
use rustmote.Config.Store.{tmp_path}
use rustmote.KnownHosts.{KnownHosts, HostKey, trust_on_first_use}
use rustmote.KnownHosts.Store as PinStore
use rustmote.KnownHosts.Store.{no_known_hosts}
use rustmote.KnownHosts.Store.Saved.{SamePins, save_to-SamePins}
use rustmote.Session.HostKeyHandler.{Handler}
use rustmote.Session.Open.Pinned.{IsNetwork, IsPinnedTo, HowTrusted}
use rustmote.Cli.{done}
use rustmote.Cli.Flow.{give, give-done, within-eq-done}
use rustmote.Cli.Connect.Run.{Desk, World, on_disk, save_if_new}

-- What is asked of the surroundings: the disk and the format of the pins keep what they are given,
-- and the paths of the two files and of their temporary files differ.
pub record IsDesk (K : Desk) : Type 1 where
  pub disk : IsDisk K.disk
  pub pins_format : IsFormat SamePins K.pins_format
  pub network : IsNetwork K.network
  pub conf : Text
  pub pins : Text
  pub conf_is : config_path K.places ≡ ok conf
  pub pins_is : known_hosts_path K.places ≡ ok pins
  pub conf_ne : conf ≢ pins
  pub conf_tmp_ne : tmp_path conf ≢ pins
  pub pins_tmp_ne : Disk.with_extension K.disk pins (str "toml.tmp") ≢ pins

module _ (K : Desk) (desk : IsDesk K) where
  pub pins_loaded :
      (files : Disk.World K.disk)
      → PinStore.load K.disk K.pins_format K.places files
        ≡ load_from K.disk K.pins_format no_known_hosts desk.pins files
  unfolding PinStore.load PinStore.load_from ◌>>=◌
  pins_loaded files = rw desk.pins_is

  pins_saved :
      (kh : KnownHosts) (files : Disk.World K.disk)
      → PinStore.save K.disk K.pins_format K.places kh files
        ≡ PinStore.save_to K.disk K.pins_format kh desk.pins files
  unfolding PinStore.save ◌>>=◌
  pins_saved kh files = rw desk.pins_is

  config_saved :
      (cfg : Config) (files : Disk.World K.disk)
      → ConfigStore.save K.disk K.config_format K.places cfg files
        ≡ ConfigStore.save_to K.disk K.config_format cfg desk.conf files
  unfolding ConfigStore.save ◌>>=◌
  config_saved cfg files = rw desk.conf_is

  -- The file has pins of which one binds the endpoint to the fingerprint.
  abbrev pub StoredPin : Handler → Text → Disk.World K.disk → Type 0
  StoredPin h fingerprint files =
      (kh : KnownHosts) × (load_from K.disk K.pins_format no_known_hosts desk.pins files
        ≡ (ok kh, files))
      × IsPinnedTo h fingerprint kh

  -- It is so for as long as the file is the same.
  pub StoredPin-same :
      (h : Handler) (fingerprint : Text) (files files' : Disk.World K.disk)
      → desk.disk.file files' desk.pins ≡ desk.disk.file files desk.pins
      → StoredPin h fingerprint files
      → StoredPin h fingerprint files'
  StoredPin-same h fingerprint files files' same (kh, loads, is_pinned) = (
    kh,
    (load_from_same K.disk desk.disk K.pins_format no_known_hosts desk.pins files files kh loads).1
        files' same,
    is_pinned,
  )

  SamePins-IsPinnedTo :
      (h : Handler) (fingerprint : Text) (kh kh' : KnownHosts)
      → SamePins kh kh'
      → IsPinnedTo h fingerprint kh
      → IsPinnedTo h fingerprint kh'
  SamePins-IsPinnedTo h fingerprint kh kh' same (k, is_there, fits) =
      (k, same h.host h.port ∙ is_there, fits)

  saved-StoredPin :
      (h : Handler) (fingerprint : Text) (kh : KnownHosts) (files files' : Disk.World K.disk)
      → PinStore.save K.disk K.pins_format K.places kh files ≡ (ok tt, files')
      → IsPinnedTo h fingerprint kh
      → StoredPin h fingerprint files'
  saved-StoredPin h fingerprint kh files files' saved is_pinned =
      let promised =
        save_to-SamePins K.disk desk.disk K.pins_format desk.pins_format desk.pins kh files
          desk.pins_tmp_ne in
      let (kh', loads, same) = rw (sym (pins_saved kh files) ∙ saved) at promised in
      (kh', loads, SamePins-IsPinnedTo h fingerprint kh kh' same is_pinned)

  -- The configuration is saved to another file.
  config_save-pins :
      (cfg : Config) (f : Option Text)
      → Keeps
          (λ files. desk.disk.file files desk.pins ≡ f)
          (ConfigStore.save_to K.disk K.config_format cfg desk.conf)
  unfolding ConfigStore.save_to
  config_save-pins cfg f = Keeps-bind _ _ (Keeps-lift _) (λ raw.
      Keeps-bind _ _ (Keeps-make_parent K.disk desk.disk desk.pins f _) (λ u.
        Keeps-replace K.disk desk.disk _ desk.conf raw desk.pins f desk.conf_tmp_ne desk.conf_ne))

  -- What save_if_new leaves stored, from pins that were loaded and the verdict of the session.
  pub save_if_new-StoredPin :
      (h : Handler) (fingerprint : Text) (kh after : KnownHosts) (was : Option HostKey)
      (newly : Bool) (w w' : World K)
      → load_from K.disk K.pins_format no_known_hosts desk.pins w.files ≡ (ok kh, w.files)
      → IsPinnedTo h fingerprint after
      → HowTrusted trust_on_first_use kh was after newly
      → save_if_new K newly after w ≡ (done tt, w')
      → StoredPin h fingerprint w'.files
  unfolding save_if_new
  save_if_new-StoredPin h fingerprint kh after was newly w w' loads is_pinned
        (inl (old, known, same)) success =
      let given : give tt w ≡ (done tt, w') = rw old at success in
      let unmoved : w' ≡ w = give-done tt tt w w' given in
      subst (λ (w : World K). StoredPin h fingerprint w.files) (sym unmoved)
        (kh, loads, subst (IsPinnedTo h fingerprint) same is_pinned)
  save_if_new-StoredPin h fingerprint kh after was newly w w' loads is_pinned
        (inr (new, unknown, trusts)) success =
      let text = str "persisting newly-pinned host key to known_hosts.toml" in
      let saving = PinStore.save K.disk K.pins_format K.places after in
      let saves : on_disk K text saving w ≡ (done tt, w') = rw new at success in
      let (files, saved, left) = within-eq-done _ _ text saving saves in
      subst (λ (w : World K). StoredPin h fingerprint w.files) (sym left)
        (saved-StoredPin h fingerprint after w.files files saved is_pinned)

  -- The file of the pins after the configuration was saved.
  pub config_saved-file :
      (cfg : Config) (files files' : Disk.World K.disk)
      → ConfigStore.save K.disk K.config_format K.places cfg files ≡ (ok tt, files')
      → desk.disk.file files' desk.pins ≡ desk.disk.file files desk.pins
  config_saved-file cfg files files' saved =
      let kept = (config_save-pins cfg (desk.disk.file files desk.pins)).at files refl in
      rw (sym (config_saved cfg files) ∙ saved) at kept
