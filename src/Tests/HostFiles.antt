-- ===== src/Tests/HostFiles.antt =====
-- A host with files, on which `cp`, `cat`, `test -f` and a redirection do what they do.
use rustmote.Prelude.{
  map, ◌+◌, ◌-◌, Option, ◌≡◌, refl, sym, ap, ◌∙◌, ℕ, true, false, [], ◌∷◌, ◌++◌, List, none, some,
  if◌then◌else◌, ◌==◌, arith, all, append-nil,
}
use rustmote.Prelude.Int.{pos}
use rustmote.Text.{bytes, strip_prefix, Text, str, split, starts_with}
use rustmote.Error
use rustmote.Error.{Result, ok, err, >>=-eq-ok, relay_health_check_failed}
use rustmote.Effect.Fails.{Refuses, Refuses-ok}
use rustmote.Relay.Commands.{
  validate_remote_path, is_path_char, copy_file, write_file, mkdir_p, compose_up, compose_pull,
  compose_config, tcp_probe, test_dir_exists, test_file_exists, cat_file,
}
use rustmote.Relay.Commands.Argv.{Request, argv-build}
use rustmote.Relay.Commands.Validators.{validate_remote_path_iff}
use rustmote.Relay.Remote.{Remote}
use rustmote.Relay.Lifecycle.Check.Readonly.{
  IsLook, test_dir, test_file, cat, os_release, docker, compose_v2, compose_v1,
}
use rustmote.Relay.Host.Stored.{IsStore}
use rustmote.Relay.Host.{IsHost, IsOther, IsCalm, looks, probes, makes_dir, shows, pulls}
use rustmote.Session.Exec.{ExecOutput}
use rustmote.Relay.State.{RelayState}
use rustmote.Tests.Disk.{Files, put, put_same, put_other}

-- What stands behind the last space, or else `word`.
abbrev last_word : (word : Text) → Text → Text
last_word word [] = word
last_word word (c ∷ s) = last_word (if c == b' ' then s else word) s

last_word-space : (word s t : Text) → last_word word (s ++ (b' ' ∷ t)) ≡ last_word t t
last_word-space word [] t = refl
last_word-space word (c ∷ s) t = last_word-space (if c == b' ' then s ++ (b' ' ∷ t) else word) s t

last_word-path :
    (word p t : Text) → all is_path_char p ≡ true → last_word word (p ++ t) ≡ last_word word t
last_word-path word [] t h = refl
last_word-path word (c ∷ p) t h =
    let here : (c == b' ') ≡ false = ground arith in
    let there : all is_path_char p ≡ true = ground arith in
    rw (here, last_word) (last_word-path word p t there)

last_word_of_path : (p : Text) → all is_path_char p ≡ true → last_word p p ≡ p
last_word_of_path p h = ap (last_word p) (sym (append-nil p)) ∙ last_word-path p p [] h

-- `cp -a`, by its words.
abbrev copied : List Text → Files → Files
copied (cp ∷ a ∷ src ∷ dst ∷ []) w = put dst (w src) w
copied words w = w

-- An encoding without spaces.
abbrev encode : List ℕ → Text
encode = map (λ c. c + 33)

abbrev decode : Text → List ℕ
decode = map (λ c. c - 33)

decode-encode : (content : List ℕ) → decode (encode content) ≡ content
decode-encode [] = refl
decode-encode (c ∷ content) =
    let here : c + 33 - 33 ≡ c = omega arith in rw here (ap (λ s. c ∷ s) (decode-encode content))

abbrev until_space : Text → Text
until_space [] = []
until_space (c ∷ s) = let rest = c ∷ until_space s in if c == b' ' then [] else rest

until_space-encode :
    (content : List ℕ) (t : Text) → until_space (encode content ++ (b' ' ∷ t)) ≡ encode content
until_space-encode [] t = refl
until_space-encode (c ∷ content) t =
    let here : (c + 33 == b' ') ≡ false = ground arith in
    rw (here, until_space) (ap (λ s. (c + 33) ∷ s) (until_space-encode content t))

-- A command with a redirection leaves what it prints where it moves its output to.
abbrev printed : Text → Option Text → Files → Files
printed command none w = w
printed command (some rest) w = put (last_word command command) (some (decode (until_space rest))) w

abbrev moved : Text → Files → Files
moved command w =
    if starts_with command (str "cp ")
    then copied (split command b' ') w
    else printed command (strip_prefix command (str "printf %s ")) w

-- What a command says of the file that it names last.
abbrev told : Option (List ℕ) → ExecOutput
told none = record { exit_code = 1; stdout = []; stderr = [] }
told (some content) = record { exit_code = 0; stdout = content; stderr = [] }

abbrev said : (port_exit : ℕ) → Text → Files → ExecOutput
said port_exit command w =
    if starts_with command (str "bash ")
    then record { exit_code = port_exit; stdout = []; stderr = [] }
    else if starts_with command (str "test ")
    then told (w (last_word command command))
    else if starts_with command (str "cat ")
    then told (w (last_word command command))
    else record { exit_code = 0; stdout = []; stderr = [] }

-- The host, whose ports give an exit code, with a format for states.
module _ (port_exit : ℕ) (from_toml : Text → Result RelayState)
    (to_toml : RelayState → Result Text) where
  abbrev pub host : Remote
  host = record {
    World = Files;
    exec = λ command w. (ok (said port_exit command w), moved command w);
    now = λ w. 0;
    instant = λ w. 9;
    sleep = λ d w. w;
    list_tags = λ repo w. (ok (str "1.1.12" ∷ []), w);
    resolve_digest = λ repo tag w.
        (ok (str "sha256:0123456789abcdef0123456789abcdef0123456789abcdef0123456789abcdef"), w);
    lossy = λ bytes. bytes;
    encode = encode;
    to_lowercase = λ s. s;
    format = λ t. str "now";
    timestamp = pos;
    from_toml = λ raw hint. from_toml raw;
    to_toml = to_toml;
  }

-- A builder of a command with one path in it.
built_is :
    (f : Text → Text) (path command : Text)
    → Error.◌>>=◌ (validate_remote_path path) (λ p. ok (f p)) ≡ ok command
    → (all is_path_char path ≡ true) × (f path ≡ command)
built_is f path command e =
    let (p, valid, made) = >>=-eq-ok (validate_remote_path path) (λ p. ok (f p)) e in
    let (is_path, same) = (validate_remote_path_iff path p).0 valid in
    (is_path.allowed, ground (arith, made, same))

pub after_look : (command : Text) (w : Files) → IsLook command → moved command w ≡ w
unfolding test_dir_exists test_file_exists cat_file starts_with strip_prefix
after_look command w (test_dir p e) = rw (← (built_is (λ q. str "test -d " ++ q) p command e).1)
after_look command w (test_file p e) = rw (← (built_is (λ q. str "test -f " ++ q) p command e).1)
after_look command w (cat p e) = rw (← (built_is (λ q. str "cat " ++ q) p command e).1)
after_look command w os_release = refl
after_look command w docker = refl
after_look command w compose_v2 = refl
after_look command w compose_v1 = refl

pub after_up : (p command : Text) (w : Files) → compose_up p ≡ ok command → moved command w ≡ w
unfolding compose_up starts_with strip_prefix
after_up p command w e =
    rw (← (built_is (λ q. str "cd " ++ (q ++ str " && docker compose up -d")) p command e).1)

pub after_calm : (command : Text) (w : Files) → IsCalm command → moved command w ≡ w
unfolding mkdir_p compose_config compose_pull tcp_probe starts_with strip_prefix
after_calm command w (looks look) = after_look command w look
after_calm command w (probes port) = refl
after_calm command w (makes_dir p e) = rw (← (built_is (λ q. str "mkdir -p " ++ q) p command e).1)
after_calm command w (shows p e) =
    rw (← (built_is (λ q. str "cd " ++ (q ++ str " && docker compose config")) p command e).1)
after_calm command w (pulls p e) =
    rw (← (built_is (λ q. str "cd " ++ (q ++ str " && docker compose pull")) p command e).1)

is_cp :
    (src dst command : Text)
    → copy_file src dst ≡ ok command
    → starts_with command (str "cp ") ≡ true
unfolding copy_file starts_with
is_cp src dst command e =
    let (s, valid_s, e') = >>=-eq-ok (validate_remote_path src) _ e in
    let (d, valid_d, e'') = >>=-eq-ok (validate_remote_path dst) _ e' in
    let same : str "cp -a " ++ (s ++ (str " " ++ d)) ≡ command = cc in rw (← same)

pub after_cp :
    (src dst command : Text) (w : Files)
    → copy_file src dst ≡ ok command
    → moved command w ≡ put dst (w src) w
after_cp src dst command w e =
    let cp = is_cp src dst command e in
    let words = (argv-build (Request.copy src dst) command e).0 in rw (cp, words)

abbrev written : (content path : Text) → Text
written content p =
    str "printf %s "
    ++ (content
        ++ (str " | base64 -d > "
            ++ (p
                ++ (str ".rustmote-tmp && mv "
                    ++ (p ++ (str ".rustmote-tmp " ++ (p ++ (str " && chmod 0644 " ++ p))))))))

last_word-written :
    (content : Text) (dst : Text)
    → all is_path_char dst ≡ true
    → last_word (written content dst) (written content dst) ≡ dst
last_word-written content dst h =
    let at_end = str " && chmod 0644 " ++ dst in
    let moves = dst ++ at_end in
    let renames = dst ++ (str ".rustmote-tmp " ++ moves) in
    let rest = dst ++ (str ".rustmote-tmp && mv " ++ renames) in
    last_word-space _ content (str "| base64 -d > " ++ rest)
    ∙ last_word-path rest dst _ h
    ∙ last_word-path renames dst _ h
    ∙ last_word-path moves dst at_end h
    ∙ last_word_of_path dst h

pub after_write :
    (dst : Text) (content : List ℕ) (command : Text) (w : Files)
    → write_file encode dst content ≡ ok command
    → moved command w ≡ put dst (some content) w
unfolding write_file starts_with strip_prefix
after_write dst content command w e =
    let (h, same) = built_is (written (encode content)) dst command e in
    rw (← same) (
      ap
        (λ c.
          put (last_word (written (encode content) dst) (written (encode content) dst)) (some c) w)
        (ap decode (until_space-encode content _) ∙ decode-encode content)
      ∙ ap (λ p. put p (some content) w) (last_word-written (encode content) dst h))

module _ (port_exit : ℕ) (from_toml : Text → Result RelayState) (to_toml : RelayState → Result Text)
    (from_refuses : (raw : Text) → Refuses IsOther (from_toml raw))
    (to_refuses : (s : RelayState) → Refuses IsOther (to_toml s)) where
  unfoldable pub host-IsHost : IsHost (host port_exit from_toml to_toml)
  host-IsHost = record {
    file = λ w. w;
    copies = λ src dst command f e. record {
      at = λ w before is_zero.
          ap (λ v. v dst) (after_cp src dst command w e) ∙ put_same dst (w src) w ∙ before;
    };
    copy_keeps = λ src dst command path f e ne. record {
      at = λ w before.
          ap (λ v. v path) (after_cp src dst command w e)
          ∙ put_other dst path (w src) w ne
          ∙ before;
    };
    write_keeps = λ dst content command path f e ne ne'. record {
      at = λ w before.
          ap (λ v. v path) (after_write dst content command w e)
          ∙ put_other dst path (some content) w ne
          ∙ before;
    };
    up_keeps = λ install_path command path f e settled. record {
      at = λ w before. ap (λ v. v path) (after_up install_path command w e) ∙ before;
    };
    calm_keeps = λ command path f calm. record {
      at = λ w before. ap (λ v. v path) (after_calm command w calm) ∙ before;
    };
    sleep_keeps = λ d w path. refl;
    tags_keep = λ repo path f. record { at = λ w before. before };
    digest_keeps = λ repo tag path f. record { at = λ w before. before };
    exec_fails = λ command. record { at = λ w. Refuses-ok _ };
    tags_fail = λ repo. record { at = λ w. Refuses-ok _ };
    digest_fails = λ repo tag. record { at = λ w. Refuses-ok _ };
    from_toml_refuses = λ raw hint. from_refuses raw;
    to_toml_refuses = to_refuses;
  }

  pub host-IsStore :
      ((s : RelayState) (raw : Text) → to_toml s ≡ ok raw → from_toml (bytes raw) ≡ ok s)
      → IsStore (host port_exit from_toml to_toml) host-IsHost
  unfolding host-IsHost starts_with test_file_exists cat_file
  host-IsStore back = record {
    writes = λ dst content command e. record {
      at = λ w u is_zero.
          ap (λ v. v dst) (after_write dst content command w e) ∙ put_same dst (some content) w;
    };
    finds = λ p command content w e there.
        let (h, same) = built_is (λ q. str "test -f " ++ q) p command e in
        let answered : told (w (last_word p p)) ≡ told (some content) =
          ap (λ q. told (w q)) (last_word_of_path p h) ∙ ap told there in
        (told (some content), rw (← same) (ap ok answered), refl);
    shows = λ p command content w e there.
        let (h, same) = built_is (λ q. str "cat " ++ q) p command e in
        let answered : told (w (last_word p p)) ≡ told (some content) =
          ap (λ q. told (w q)) (last_word_of_path p h) ∙ ap told there in
        (told (some content), rw (← same) (ap ok answered), refl, refl);
    reads_back = λ s raw hint text. back s raw text;
  }
