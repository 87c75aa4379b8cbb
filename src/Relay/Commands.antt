-- ===== src/Relay/Commands.antt =====
-- crates/rustmote-core/src/relay_lifecycle/commands.rs: the validators of arguments and the
-- builders of remote commands. A `Path` is its text; the base64 encoder of the `base64` crate is an
-- argument of `write_file`.
pub mod Validators
pub mod RemotePath
pub mod Argv
pub mod ImageRef
use rustmote.Prelude.{
  ℕ, Bool, true, false, not, ◌&&◌, ◌||◌, Option, none, some, List, [], ◌∷◌, ◌++◌, leb, ltb, ◌==◌,
  all, any, last?, if◌then◌else◌,
}
use rustmote.Text.{
  Text, str, text_eq, is_ascii_alphanumeric, is_ascii_lowercase, is_ascii_uppercase, is_ascii_digit,
  is_ascii_hexdigit, byte_len, starts_with, strip_prefix, split, decimal,
}
use rustmote.Error.{Result, ok, err, invalid_relay_path, invalid_image_ref, ◌>>=◌}

-- The characters of a path, a repository, a tag and a digest.
abbrev pub is_path_char : ℕ → Bool
is_path_char c = is_ascii_alphanumeric c || c == b'/' || c == b'.' || c == b'_' || c == b'-'

abbrev pub is_repo_char : ℕ → Bool
is_repo_char c =
    is_ascii_lowercase c || is_ascii_digit c || c == b'.' || c == b'_' || c == b'-' || c == b'/'

abbrev pub is_tag_char : ℕ → Bool
is_tag_char c = is_ascii_alphanumeric c || c == b'_' || c == b'.' || c == b'-'

abbrev pub is_digest_char : ℕ → Bool
is_digest_char c = is_ascii_hexdigit c && not (is_ascii_uppercase c)

-- `s.split('/').any(|c| c == "..")`.
abbrev pub has_parent_component : Text → Bool
has_parent_component s = any (λ c. text_eq c (str "..")) (split s b'/')

unfoldable pub validate_remote_path : Text → Result Text
validate_remote_path s =
    if not (starts_with s (str "/"))
    then err (invalid_relay_path s)
    else if not (all is_path_char s)
    then err (invalid_relay_path s)
    else if has_parent_component s
    then err (invalid_relay_path s)
    else ok s

-- `starts_with` and `ends_with` one of several characters.
abbrev pub first_is : (ℕ → Bool) → Text → Bool
first_is p [] = false
first_is p (c ∷ s) = p c

abbrev pub last_is : (ℕ → Bool) → Text → Bool
last_is p s = elim (last? s) [ none ↦ false | some c ↦ p c ]

abbrev pub is_separator : ℕ → Bool
is_separator c = c == b'/' || c == b'.' || c == b'-' || c == b'_'

unfoldable pub validate_repo : Text → Result Text
validate_repo repo =
    let refused = err (invalid_image_ref (str "repo=" ++ repo)) in
    if byte_len repo == 0 || ltb 255 (byte_len repo)
    then refused
    else if not (all is_repo_char repo)
    then refused
    else if first_is is_separator repo || last_is is_separator repo
    then refused
    else if has_parent_component repo
    then refused
    else ok repo

unfoldable pub validate_tag : Text → Result Text
validate_tag tag =
    let refused = err (invalid_image_ref (str "tag=" ++ tag)) in
    if byte_len tag == 0 || ltb 128 (byte_len tag)
    then refused
    else if first_is (λ c. c == b'.' || c == b'-') tag
    then refused
    else if not (all is_tag_char tag)
    then refused
    else ok tag

unfoldable pub validate_digest : Text → Result Text
validate_digest digest = elim (strip_prefix digest (str "sha256:")) [
  | none ↦ err (invalid_image_ref (str "digest=" ++ digest))
  | some hex ↦
      (if not (byte_len hex == 64) || not (all is_digest_char hex)
        then err (invalid_image_ref (str "digest=" ++ digest))
        else ok digest)
]

unfoldable pub validate_backup_suffix : Text → Result Text
validate_backup_suffix suffix =
    let refused = err (invalid_relay_path (str "backup-suffix=" ++ suffix)) in
    if byte_len suffix == 0 || ltb 64 (byte_len suffix)
    then refused
    else if not (all is_tag_char suffix)
    then refused
    else ok suffix

abbrev pub read_os_release : Text
read_os_release = str "cat /etc/os-release"

abbrev pub check_docker_present : Text
check_docker_present = str "command -v docker"

abbrev pub check_docker_compose_v2 : Text
check_docker_compose_v2 = str "docker compose version"

abbrev pub check_docker_compose_v1 : Text
check_docker_compose_v1 = str "docker-compose --version"

unfoldable pub test_dir_exists : Text → Result Text
test_dir_exists path = do p ← validate_remote_path path; ok (str "test -d " ++ p)

unfoldable pub test_file_exists : Text → Result Text
test_file_exists path = do p ← validate_remote_path path; ok (str "test -f " ++ p)

unfoldable pub mkdir_p : Text → Result Text
mkdir_p path = do p ← validate_remote_path path; ok (str "mkdir -p " ++ p)

unfoldable pub cat_file : Text → Result Text
cat_file path = do p ← validate_remote_path path; ok (str "cat " ++ p)

unfoldable pub copy_file : Text → Text → Result Text
copy_file src dst = do
  s ← validate_remote_path src
  d ← validate_remote_path dst
  ok (str "cp -a " ++ (s ++ (str " " ++ d)))

unfoldable pub write_file : (encode : List ℕ → Text) → Text → List ℕ → Result Text
write_file encode path content = do
  p ← validate_remote_path path
  let encoded = encode content
  ok (
      str "printf %s "
      ++ (encoded
          ++ (str " | base64 -d > "
              ++ (p
                  ++ (str ".rustmote-tmp && mv "
                      ++ (p ++ (str ".rustmote-tmp " ++ (p ++ (str " && chmod 0644 " ++ p)))))))))

unfoldable pub compose_up : Text → Result Text
compose_up install_path = do
  p ← validate_remote_path install_path
  ok (str "cd " ++ (p ++ str " && docker compose up -d"))

unfoldable pub compose_pull : Text → Result Text
compose_pull install_path = do
  p ← validate_remote_path install_path
  ok (str "cd " ++ (p ++ str " && docker compose pull"))

unfoldable pub compose_config : Text → Result Text
compose_config install_path = do
  p ← validate_remote_path install_path
  ok (str "cd " ++ (p ++ str " && docker compose config"))

unfoldable pub compose_ps_json : Text → Result Text
compose_ps_json install_path = do
  p ← validate_remote_path install_path
  ok (str "cd " ++ (p ++ str " && docker compose ps --format json"))

unfoldable pub compose_logs_tail : Text → Result Text
compose_logs_tail install_path = do
  p ← validate_remote_path install_path
  ok (str "cd " ++ (p ++ str " && docker compose logs --no-color --tail 200"))

unfoldable pub tcp_probe : ℕ → Text
tcp_probe port = str "bash -c 'exec 3<>/dev/tcp/127.0.0.1/" ++ (decimal port ++ str "' 2>/dev/null")

unfoldable pub pinned_image_ref : Text → Text → Text → Result Text
pinned_image_ref repo tag digest = do
  r ← validate_repo repo
  t ← validate_tag tag
  d ← validate_digest digest
  ok (r ++ (b':' ∷ (t ++ (b'@' ∷ d))))
