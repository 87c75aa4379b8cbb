-- ===== src/Relay/Host/Apart.antt =====
-- Which of the paths that an update writes are different, for any install path and any suffix of the
-- backup folder.
use rustmote.Prelude.{
  ℕ, zero, suc, ◌≡◌, ◌≢◌, refl, sym, ap, ◌∙◌, ◌<◌, Bool, false, [], ◌∷◌, ◌++◌, arith, length,
  length-append, reverse, ◌==◌,
}
use mathlib.Core.List.{reverse-append}
use rustmote.Text.{Text, str, trim_end_matches}
use rustmote.Relay.Paths.{posix_join, backups_path, backup_dir_for}
use rustmote.Relay.Host.{tmp_of}

abbrev slash : ℕ → Bool
slash c = c == b'/'

-- The character with `k` ones behind it.
abbrev char_of : ℕ → Text → ℕ
char_of k [] = 0
char_of zero (c ∷ s) = c
char_of (suc k) (c ∷ s) = char_of k s

abbrev from_end : ℕ → Text → ℕ
from_end k s = char_of k (reverse s)

from_end-join :
    (k : ℕ) (base name : Text)
    → from_end k (posix_join base name)
      ≡ char_of k (reverse (b'/' ∷ name) ++ reverse (trim_end_matches slash base))
unfolding posix_join
from_end-join k base name =
    ap (char_of k) (reverse-append (trim_end_matches slash base) (b'/' ∷ name))

from_end-tmp_of :
    (k : ℕ) (path : Text)
    → from_end k (tmp_of path) ≡ char_of k (reverse (str ".rustmote-tmp") ++ reverse path)
from_end-tmp_of k path = ap (char_of k) (reverse-append path (str ".rustmote-tmp"))

abbrev compose_name : Text
compose_name = str "docker-compose.yml"

abbrev state_name : Text
state_name = str ".rustmote-state.toml"

abbrev config_name : Text
config_name = str "compose-config.yml"

-- Files of different names are different, in whatever folders.
pub compose-ne-state : (a b : Text) → posix_join a compose_name ≢ posix_join b state_name
compose-ne-state a b same =
    let letters : 121 ≡ 111 =
      sym (from_end-join 2 a compose_name) ∙ ap (from_end 2) same ∙ from_end-join 2 b state_name in
    omega (arith, letters)

pub config-ne-compose : (a b : Text) → posix_join a config_name ≢ posix_join b compose_name
config-ne-compose a b same =
    let letters : 103 ≡ 101 =
      sym (from_end-join 4 a config_name) ∙ ap (from_end 4) same ∙ from_end-join 4 b compose_name in
    omega (arith, letters)

pub config-ne-state : (a b : Text) → posix_join a config_name ≢ posix_join b state_name
config-ne-state a b same =
    let letters : 121 ≡ 111 =
      sym (from_end-join 2 a config_name) ∙ ap (from_end 2) same ∙ from_end-join 2 b state_name in
    omega (arith, letters)

pub tmp-ne-compose : (path base : Text) → tmp_of path ≢ posix_join base compose_name
tmp-ne-compose path base same =
    let letters : 112 ≡ 108 =
      sym (from_end-tmp_of 0 path) ∙ ap (from_end 0) same ∙ from_end-join 0 base compose_name in
    omega (arith, letters)

pub tmp-ne-state : (path base : Text) → tmp_of path ≢ posix_join base state_name
tmp-ne-state path base same =
    let letters : 112 ≡ 108 =
      sym (from_end-tmp_of 0 path) ∙ ap (from_end 0) same ∙ from_end-join 0 base state_name in
    omega (arith, letters)

-- Trimming stops at a character that is not trimmed.
length-lt-trim :
    (s : Text) (d c : ℕ) (t : Text)
    → slash c ≡ false
    → length s < length (trim_end_matches slash (s ++ (d ∷ c ∷ t)))
unfolding trim_end_matches
length-lt-trim [] d c t kept = ground arith
length-lt-trim (x ∷ s) d c t kept = ground (arith, length-lt-trim s d c t kept)

-- A file in a backup folder is not the one of this name in the install folder.
pub install-ne-backup :
    (install_path suffix name : Text)
    → posix_join install_path name ≢ posix_join (backup_dir_for install_path suffix) name
unfolding posix_join backup_dir_for backups_path
install-ne-backup install_path suffix name same =
    let root = trim_end_matches slash install_path in
    let backups = trim_end_matches slash (root ++ str "/backups") in
    let dir = trim_end_matches slash (backups ++ (b'/' ∷ (str "pre-update-" ++ suffix))) in
    omega (
      arith,
      length-lt-trim root b'/' b'b' (str "ackups") refl,
      length-lt-trim backups b'/' b'p' (str "re-update-" ++ suffix) refl,
      ap length same,
      length-append root (b'/' ∷ name),
      length-append dir (b'/' ∷ name),
    )
