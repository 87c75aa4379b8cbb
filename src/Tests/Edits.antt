-- ===== src/Tests/Edits.antt =====
-- Commands that add and remove servers and targets, on a disk without files at first.
use rustmote.Prelude.{
  ℕ, false, ◌≡◌, refl, ap, ◌∙◌, [], ◌∷◌, ◌++◌, List, Option, none, some, ◌⊎◌, inr, zero, suc,
  length,
}
use rustmote.Text.{Text, str, text_eq, byte_len, trim, to_ascii_lowercase}
use rustmote.Time.{DateTime}
use rustmote.Net.{IpAddr, v4}
use rustmote.Error.{Result, ok, err, config_serialize, ◌>>=◌, >>=-eq-ok}
use rustmote.Effect
use rustmote.CredentialMode.{CredentialMode, prompt, keychain, unsafe, from_str, mode_eq}
use rustmote.Cli.ConfigMode.{set_mode, parse_and_gate_mode, apply_mode, save_if_changed}
use rustmote.Cli.Registry.Safe.{StoredSafe, run_edits-StoredSafe}
use rustmote.Server.{RemoteServer, validate_name}
use rustmote.Target.{Target, new_target}
use rustmote.Places.{config_dir, config_path}
use rustmote.Disk
use rustmote.Disk.{Format, make_parent, replace}
use rustmote.Disk.Atomic.{IsFormat}
use rustmote.Config.{Config, default_config}
use rustmote.Config.Store.{load, load_from, save, save_to, tmp_path}
use rustmote.Keyed.{remove_first}
use rustmote.Registry.{add_target, remove_target, get_target, remove_server}
use rustmote.Viewer
use rustmote.Cli.{with_context}
use rustmote.Cli.Flow
use rustmote.Cli.Flow.{within}
use rustmote.Cli.Registry.{
  edit, server_add, server_remove, changed, check_via, with_target, target_add, target_remove,
}
use rustmote.Cli.Registry.Sound.{IsSound}
use rustmote.Cli.Registry.Stored.{
  Edit, add_a_server, remove_a_server, add_a_target, remove_a_target, change_mode, run_edits,
  StoredSound, run_edits-StoredSound,
}
use rustmote.Tests.Credentials.{cut, take-length}
use rustmote.Tests.Disk.{disk, disk-IsDisk, empty_disk}
use rustmote.Tests.Connect.{places}

-- A format for the configurations with a viewer and at most one target, with nothing but an id.
abbrev plain :
    Option IpAddr → (label via : Option Text) → Option DateTime → (id viewer : Text) → Result Text
plain (some ip) label via seen id v = err (config_serialize [])
plain none (some label) via seen id v = err (config_serialize [])
plain none none (some via) seen id v = err (config_serialize [])
plain none none none (some seen) id v = err (config_serialize [])
plain none none none none id v = ok (1 ∷ length v ∷ (v ++ id))

abbrev encode_targets : List Target → (viewer : Text) → Result Text
encode_targets [] v = ok (0 ∷ v)
encode_targets (t ∷ []) v = plain t.ip t.label t.via_server t.last_seen t.id v
encode_targets (t ∷ u ∷ rest) v = err (config_serialize [])

abbrev code_of : CredentialMode → ℕ
code_of prompt = 0
code_of keychain = 1
code_of unsafe = 2

abbrev mode_of : ℕ → CredentialMode
mode_of zero = prompt
mode_of (suc zero) = keychain
mode_of (suc (suc n)) = unsafe

abbrev encode : CredentialMode → Option Text → List RemoteServer → List Target → Text → Result Text
encode m (some x) s t v = err (config_serialize [])
encode m none (x ∷ s) t v = err (config_serialize [])
encode m none [] t v = encode_targets t v >>= λ raw. ok (code_of m ∷ raw)

abbrev config_with : CredentialMode → List Target → Text → Config
config_with m targets v = record {
  general = record { credential_mode = m; default_server = none; viewer_path = v };
  servers = [];
  targets = targets;
}

abbrev one_target : CredentialMode → Text × Text → Config
one_target m (v, id) = config_with m (new_target id ∷ []) v

abbrev decode_from : CredentialMode → Text → Text ⊎ Config
decode_from m (zero ∷ v) = inr (config_with m [] v)
decode_from m (suc n ∷ k ∷ raw) = inr (one_target m (cut k raw))
decode_from m raw = inr default_config

abbrev decode : Text → Text ⊎ Config
decode [] = inr default_config
decode (c ∷ raw) = decode_from (mode_of c) raw

abbrev format : Format Config
format = record {
  from_toml = decode;
  to_toml = λ cfg.
      encode cfg.general.credential_mode cfg.general.default_server cfg.servers cfg.targets
        cfg.general.viewer_path;
}

decode-plain :
    (m : CredentialMode) (ip : Option IpAddr) (label via : Option Text) (seen : Option DateTime)
    (id v raw : Text)
    → plain ip label via seen id v ≡ ok raw
    → decode_from m raw
      ≡ inr (
          config_with m
            (record { id = id; ip = ip; label = label; via_server = via; last_seen = seen } ∷ [])
            v)
unfolding new_target
decode-plain m (some ip) label via seen id v raw e = absurd cc
decode-plain m none (some label) via seen id v raw e = absurd cc
decode-plain m none none (some via) seen id v raw e = absurd cc
decode-plain m none none none (some seen) id v raw e = absurd cc
decode-plain m none none none none id v raw e =
    let same : raw ≡ 1 ∷ length v ∷ (v ++ id) = cc in
    ap (decode_from m) same ∙ ap (λ t. inr (one_target m t)) (take-length v id)

decode-encode_targets :
    (m : CredentialMode) (t : List Target) (v raw : Text)
    → encode_targets t v ≡ ok raw
    → decode_from m raw ≡ inr (config_with m t v)
decode-encode_targets m [] v raw e = let same : raw ≡ 0 ∷ v = cc in ap (decode_from m) same
decode-encode_targets m (t ∷ []) v raw e =
    decode-plain m t.ip t.label t.via_server t.last_seen t.id v raw e
decode-encode_targets m (t ∷ u ∷ rest) v raw e = absurd cc

mode_of-code_of : (m : CredentialMode) → mode_of (code_of m) ≡ m
mode_of-code_of prompt = refl
mode_of-code_of keychain = refl
mode_of-code_of unsafe = refl

decode-encode :
    (m : CredentialMode) (d : Option Text) (s : List RemoteServer) (t : List Target) (v raw : Text)
    → encode m d s t v ≡ ok raw
    → decode raw
      ≡ inr (record {
        general = record { credential_mode = m; default_server = d; viewer_path = v };
        servers = s;
        targets = t;
      })
decode-encode m (some x) s t v raw e = absurd cc
decode-encode m none (x ∷ s) t v raw e = absurd cc
decode-encode m none [] t v raw e =
    let (body, made, tagged) = >>=-eq-ok (encode_targets t v) (λ b. ok (code_of m ∷ b)) e in
    let same : raw ≡ code_of m ∷ body = cc in
    ap decode same
    ∙ ap (λ n. decode_from n body) (mode_of-code_of m)
    ∙ decode-encode_targets m t v body made

format-IsFormat : IsFormat ◌≡◌ format
format-IsFormat = record {
  back = λ cfg raw e. (
    cfg,
    decode-encode cfg.general.credential_mode cfg.general.default_server cfg.servers cfg.targets
        cfg.general.viewer_path raw e,
    refl,
  );
}

-- A target, a second one that the format refuses, one that is not there, a name with a space, a
-- server that is not there, and two changes of the mode, of which the first is refused.
abbrev edits : List Edit
edits =
    add_a_target (str "123456789") none none
    ∷ add_a_target (str "987654321") (some (str "desk")) none
    ∷ remove_a_target (str "111111111")
    ∷ add_a_server none 0 (str "a b") (v4 1) (some (str "root")) 22 21116
    ∷ remove_a_server (str "relay")
    ∷ change_mode (str "unsafe") false
    ∷ change_mode (str "KeyChain") false
    ∷ []

config_path_is : config_path places ≡ ok (str "/d/config.toml")
unfolding config_path config_dir
config_path_is = refl

default-IsSound : IsSound default_config
default-IsSound = record { registry = record { servers = tt; targets = tt }; names = tt; ids = tt }

empty-StoredSound :
    StoredSound disk disk-IsDisk format format-IsFormat places
      (str "/d/config.toml")
      config_path_is
      empty_disk
unfolding Disk.load_from
empty-StoredSound = (default_config, refl, default-IsSound)

run_edits-StoredSound_example :
    StoredSound disk disk-IsDisk format format-IsFormat places
      (str "/d/config.toml")
      config_path_is
      (run_edits disk format places edits empty_disk)
run_edits-StoredSound_example =
    run_edits-StoredSound disk disk-IsDisk format format-IsFormat places (str "/d/config.toml")
      config_path_is edits empty_disk empty-StoredSound

empty-StoredSafe :
    StoredSafe disk disk-IsDisk format format-IsFormat places
      (str "/d/config.toml")
      config_path_is
      empty_disk
unfolding Disk.load_from
empty-StoredSafe = (default_config, refl, λ now. absurd cc)

run_edits-StoredSafe_example :
    StoredSafe disk disk-IsDisk format format-IsFormat places
      (str "/d/config.toml")
      config_path_is
      (run_edits disk format places edits empty_disk)
run_edits-StoredSafe_example =
    run_edits-StoredSafe disk disk-IsDisk format format-IsFormat places (str "/d/config.toml")
      config_path_is edits empty_disk (refl, (refl, (refl, (refl, (refl, (refl, (refl, tt)))))))
      empty-StoredSafe

-- Only the first and the last of them change the file.
end :
    run_edits disk format places edits empty_disk (str "/d/config.toml")
    ≡ some (1 ∷ 1 ∷ 0 ∷ str "123456789")
unfolding edit within Flow.◌>>=◌ with_context Effect.◌>>=◌ changed check_via with_target target_add
    target_remove load load_from save save_to tmp_path config_dir config_path Disk.load_from
    make_parent replace add_target remove_target get_target remove_first Viewer.new text_eq
    server_remove server_add validate_name byte_len new_target remove_server set_mode
    parse_and_gate_mode apply_mode save_if_changed from_str mode_eq trim to_ascii_lowercase
end = refl
