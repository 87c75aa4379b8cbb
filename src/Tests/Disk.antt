-- ===== src/Tests/Disk.antt =====
-- Saving to a disk that keeps all files, with formats for a part of the values.
use rustmote.Prelude.{
  ◌≡◌, ◌≢◌, refl, sym, ap, ◌∙◌, arith, [], ◌∷◌, ◌++◌, List, Option, none, some, ◌⊎◌, inr,
  if◌then◌else◌, ℕ, length,
}
use rustmote.Text.{Text, str, text_eq}
use rustmote.Text.Laws.{text_eq_iff, text_eq_ne}
use rustmote.Error.{Result, ok, err, config_serialize}
use rustmote.CredentialMode.{CredentialMode, prompt, keychain, unsafe}
use rustmote.Server.{RemoteServer}
use rustmote.Target.{Target}
use rustmote.Disk.{Disk, Format}
use rustmote.Disk.Atomic.{IsDisk, IsFormat, Saves, contents}
use rustmote.Config.{Config, default_config}
use rustmote.Config.Store.{save_to}
use rustmote.Config.Store.Saved.{save_to-Saves}
use rustmote.Tests.Credentials.{cut, take-length}
use rustmote.KnownHosts.{KnownHosts, HostKey}
use rustmote.KnownHosts.Store
use rustmote.KnownHosts.Store.{no_known_hosts}
use rustmote.KnownHosts.Store.Saved.{SamePins, save_to-SamePins}

abbrev pub Files : Type 0
Files = Text → Option Text

abbrev pub put : Text → Option Text → Files → Files
put key f files path = if text_eq key path then f else files path

abbrev pub disk : Disk
disk = record {
  World = Files;
  read_to_string = λ path w. (contents (w path), w);
  create_dir_all = λ dir w. (ok tt, w);
  write = λ path content w. (ok tt, put path (some content) w);
  rename = λ old new w. (ok tt, put new (w old) (put old none w));
  parent = λ path. some (str "/d");
  with_extension = λ path extension. path ++ str "." ++ extension;
}

pub put_same : (key : Text) (f : Option Text) (w : Files) → put key f w key ≡ f
put_same key f w = let itself = (text_eq_iff key key).1 refl in rw itself

pub put_other :
    (key path : Text) (f : Option Text) (w : Files) → key ≢ path → put key f w path ≡ w path
put_other key path f w ne = let differs = text_eq_ne key path ne in rw differs

pub disk-IsDisk : IsDisk disk
disk-IsDisk = record {
  file = λ w. w;
  read_is = λ path w. refl;
  create_dir_all_keeps = λ dir path f. record { at = λ w same. same };
  write_keeps = λ tmp content path f ne. record {
    at = λ w same. put_other tmp path (some content) w ne ∙ same;
  };
  write_fills = λ tmp content. record { at = λ w u. put_same tmp (some content) w };
  rename_keeps = λ old new path f ne ne'. record {
    at = λ w same.
        put_other new path (w old) (put old none w) ne' ∙ put_other old path none w ne ∙ same;
  };
  rename_moves =
      λ old new f g. record { at = λ w both. put_same new (w old) (put old none w) ∙ both.0 };
}

-- A format for the configurations with nothing but a viewer.
abbrev encode : CredentialMode → Option Text → List RemoteServer → List Target → Text → Result Text
encode keychain d s t v = err (config_serialize [])
encode unsafe d s t v = err (config_serialize [])
encode prompt (some x) s t v = err (config_serialize [])
encode prompt none (x ∷ s) t v = err (config_serialize [])
encode prompt none [] (x ∷ t) v = err (config_serialize [])
encode prompt none [] [] v = ok v

abbrev config_with : Text → Config
config_with v = record {
  general = record { credential_mode = prompt; default_server = none; viewer_path = v };
  servers = [];
  targets = [];
}

abbrev config_format : Format Config
config_format = record {
  from_toml = λ raw. inr (config_with raw);
  to_toml = λ cfg.
      encode cfg.general.credential_mode cfg.general.default_server cfg.servers cfg.targets
        cfg.general.viewer_path;
}

decoded :
    (m : CredentialMode) (d : Option Text) (s : List RemoteServer) (t : List Target) (v raw : Text)
    → encode m d s t v ≡ ok raw
    → config_with raw ≡ record {
      general = record { credential_mode = m; default_server = d; viewer_path = v };
      servers = s;
      targets = t;
    }
decoded keychain d s t v raw e = absurd cc
decoded unsafe d s t v raw e = absurd cc
decoded prompt (some x) s t v raw e = absurd cc
decoded prompt none (x ∷ s) t v raw e = absurd cc
decoded prompt none [] (x ∷ t) v raw e = absurd cc
decoded prompt none [] [] v raw e = let same : v ≡ raw = cc in ap config_with (sym same)

config_format-IsFormat : IsFormat ◌≡◌ config_format
config_format-IsFormat = record {
  back = λ cfg raw e. (
    config_with raw,
    refl,
    sym (
        decoded cfg.general.credential_mode cfg.general.default_server cfg.servers cfg.targets
          cfg.general.viewer_path raw e),
  );
}

abbrev pub empty_disk : Files
empty_disk path = none

save_to-Saves_example :
    Saves disk disk-IsDisk config_format config_format-IsFormat default_config
      (str "/d/c.toml")
      (config_with (str "/v"))
      none
      (save_to disk config_format (config_with (str "/v")) (str "/d/c.toml") empty_disk)
unfolding disk-IsDisk
save_to-Saves_example =
    save_to-Saves disk disk-IsDisk config_format config_format-IsFormat (str "/d/c.toml")
      (config_with (str "/v")) empty_disk

-- A format for the stores with at most one pin: its time, two lengths, and its three texts.
abbrev encode_pins : List (Text × HostKey) → Result Text
encode_pins [] = ok []
encode_pins ((key, pin) ∷ []) = ok (
    pin.first_seen
    ∷ length key
    ∷ length pin.fingerprint
    ∷ (key ++ (pin.fingerprint ++ pin.key_type)))
encode_pins (e ∷ f ∷ rest) = err (config_serialize [])

abbrev store_of : ℕ → Text → Text × Text → KnownHosts
store_of at key (fingerprint, key_type) = record {
  entries = (key, record { fingerprint = fingerprint; key_type = key_type; first_seen = at }) ∷ [];
}

abbrev decode_texts : ℕ → ℕ → Text × Text → KnownHosts
decode_texts at m (key, rest) = store_of at key (cut m rest)

abbrev decode_pins : Text → Text ⊎ KnownHosts
decode_pins (at ∷ n ∷ m ∷ raw) = inr (decode_texts at m (cut n raw))
decode_pins raw = inr no_known_hosts

abbrev pub pins_format : Format KnownHosts
pins_format = record { from_toml = decode_pins; to_toml = λ kh. encode_pins kh.entries }

decode-encode_pins :
    (entries : List (Text × HostKey)) (raw : Text)
    → encode_pins entries ≡ ok raw
    → decode_pins raw ≡ inr (record { entries = entries })
decode-encode_pins [] raw e = let same : raw ≡ [] = cc in ap decode_pins same
decode-encode_pins ((key, pin) ∷ []) raw e =
    let fp = pin.fingerprint in
    let texts = key ++ (fp ++ pin.key_type) in
    let same : raw ≡ pin.first_seen ∷ length key ∷ length fp ∷ texts = cc in
    ap decode_pins same
    ∙ ap (λ t. inr (decode_texts pin.first_seen (length fp) t))
        (take-length key (fp ++ pin.key_type))
    ∙ ap (λ t. inr (store_of pin.first_seen key t)) (take-length fp pin.key_type)
decode-encode_pins (e ∷ f ∷ rest) raw failed = absurd cc

pub pins_format-IsFormat : IsFormat SamePins pins_format
pins_format-IsFormat = record {
  back = λ kh raw e. (kh, decode-encode_pins kh.entries raw e, λ host port. refl);
}

abbrev one_pin : KnownHosts
one_pin = store_of 7 (str "relay:22") (str "SHA256:aa", str "ssh-ed25519")

apart : disk.with_extension (str "/d/k.toml") (str "toml.tmp") ≢ str "/d/k.toml"
apart same = omega (arith, ap length same)

save_to-SamePins_example :
    Saves disk disk-IsDisk pins_format pins_format-IsFormat no_known_hosts
      (str "/d/k.toml")
      one_pin
      none
      (Store.save_to disk pins_format one_pin (str "/d/k.toml") empty_disk)
unfolding disk-IsDisk
save_to-SamePins_example =
    save_to-SamePins disk disk-IsDisk pins_format pins_format-IsFormat (str "/d/k.toml") one_pin
      empty_disk apart
