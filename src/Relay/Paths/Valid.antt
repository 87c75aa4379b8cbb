-- ===== src/Relay/Paths/Valid.antt =====
-- Every path that the program makes below a valid install path is a valid argument of a command.
use rustmote.Prelude.{
  ℕ, ◌≡◌, refl, sym, ◌∙◌, ap, Bool, true, false, ◌||◌, [], ◌∷◌, ◌++◌, arith, all, any, ◌==◌,
  all-append_iff, append-nil, Bool-cases, inl, inr, all_mono,
}
use rustmote.Text.{Text, str, text_eq, split, starts_with, keep_end, trim_end_matches}
use rustmote.Text.Laws.{all-trim_end_matches}
use rustmote.Text.Split.{
  any-append, contains, contains-false_of_all, split-append_sep, split_of_free,
}
use rustmote.Relay.Commands.{is_path_char, is_tag_char, has_parent_component}
use rustmote.Relay.Commands.Validators.{IsRemotePath}
use rustmote.Relay.Paths.{
  posix_join, compose_path, env_path, state_path, data_path, backups_path, backup_dir_for,
}

abbrev slash : ℕ → Bool
slash c = c == b'/'

-- Trimming leaves a text, or takes slashes off its end.
trimmed_step :
    (c : ℕ) (s t rest : Text)
    → s ≡ t ++ rest
    → all slash rest ≡ true
    → (x : Text) × (c ∷ s ≡ keep_end slash c t ++ x) × (all slash x ≡ true)
trimmed_step c s [] rest e h = elim (Bool-cases (slash c)) [
  | inl y ↦ (c ∷ s, rw y, rw (y, e) h)
  | inr n ↦ (rest, rw (n, e), h)
]
trimmed_step c s (d ∷ t) rest e h = (rest, ap (λ u. c ∷ u) e, h)

trimmed :
    (s : Text) → (rest : Text) × (s ≡ trim_end_matches slash s ++ rest) × (all slash rest ≡ true)
unfolding trim_end_matches
trimmed [] = ([], refl, refl)
trimmed (c ∷ s) =
    let (rest, e, h) = trimmed s in trimmed_step c s (trim_end_matches slash s) rest e h

pub has_parent-join :
    (s t : Text)
    → has_parent_component (s ++ (b'/' ∷ t)) ≡ (has_parent_component s || has_parent_component t)
has_parent-join s t =
    ap (any (λ c. text_eq c (str ".."))) (split-append_sep s t b'/')
    ∙ any-append (λ c. text_eq c (str "..")) (split s b'/') (split t b'/')

no_parent_of_trimmed :
    (s rest : Text)
    → all slash rest ≡ true
    → has_parent_component (s ++ rest) ≡ false
    → has_parent_component s ≡ false
no_parent_of_trimmed s [] h e = rw append-nil at e
no_parent_of_trimmed s (c ∷ rest) h e =
    let here : c ≡ b'/' = ground arith in
    let joined : has_parent_component (s ++ (b'/' ∷ rest)) ≡ false =
      ap (λ d. has_parent_component (s ++ (d ∷ rest))) (sym here) ∙ e in
    ground (arith, has_parent-join s rest, joined)

-- The trimmed base of an absolute path is empty or starts as the path does.
starts_of_trimmed :
    (t rest name : Text)
    → starts_with (t ++ rest) (str "/") ≡ true
    → starts_with (t ++ (b'/' ∷ name)) (str "/") ≡ true
unfolding starts_with
starts_of_trimmed [] rest name h = refl
starts_of_trimmed (c ∷ t) rest name h = ground arith

-- A name of one component.
pub record IsComponent (name : Text) : Type 0 where
  pub allowed : all is_path_char name ≡ true
  pub single : contains name b'/' ≡ false
  pub no_parent : text_eq name (str "..") ≡ false

-- Joining a component to a valid path gives a valid path, whatever slashes the path ends with.
pub posix_join-IsRemotePath :
    (base name : Text) → IsRemotePath base → IsComponent name → IsRemotePath (posix_join base name)
unfolding posix_join
posix_join-IsRemotePath base name b n =
    let (rest, e, slashes) = trimmed base in
    let t = trim_end_matches slash base in
    record {
      absolute = starts_of_trimmed t rest name (rw e at b.absolute);
      allowed =
          (all-append_iff is_path_char t (b'/' ∷ name)).1
            (all-trim_end_matches slash is_path_char base b.allowed, n.allowed);
      no_parent = ground (
        arith,
        has_parent-join t name,
        no_parent_of_trimmed t rest slashes (ap has_parent_component (sym e) ∙ b.no_parent),
        split_of_free name b'/' n.single,
        n.no_parent,
      );
    }

component :
    (name : Text) → all is_tag_char name ≡ true → text_eq name (str "..") ≡ false → IsComponent name
component name h k = record {
  allowed = all_mono is_tag_char is_path_char name (λ c e. ground arith) h;
  single = contains-false_of_all is_tag_char name b'/' refl h;
  no_parent = k;
}

-- The files and folders of an install, and a backup folder whose suffix has the characters of a
-- formatted time.
pub record Layout (install_path suffix : Text) : Type 0 where
  pub compose : IsRemotePath (compose_path install_path)
  pub env : IsRemotePath (env_path install_path)
  pub state : IsRemotePath (state_path install_path)
  pub keys : IsRemotePath (data_path install_path)
  pub public_key : IsRemotePath (posix_join (data_path install_path) (str "id_ed25519.pub"))
  pub backups : IsRemotePath (backups_path install_path)
  pub backup_dir : IsRemotePath (backup_dir_for install_path suffix)
  pub backup_compose :
      IsRemotePath (posix_join (backup_dir_for install_path suffix) (str "docker-compose.yml"))
  pub backup_state :
      IsRemotePath (posix_join (backup_dir_for install_path suffix) (str ".rustmote-state.toml"))
  pub backup_config :
      IsRemotePath (posix_join (backup_dir_for install_path suffix) (str "compose-config.yml"))

-- Below a valid install path, and for a backup suffix of letters, digits, `_`, `.` and `-`, every
-- file and folder that an install, an update or a rollback uses has a valid path.
pub Layout-of :
    (install_path suffix : Text)
    → IsRemotePath install_path
    → all is_tag_char suffix ≡ true
    → Layout install_path suffix
unfolding compose_path env_path state_path data_path backups_path backup_dir_for text_eq
Layout-of install_path suffix p h =
    let join =
      λ (base name : Text) (b : IsRemotePath base) (k : all is_tag_char name ≡ true)
          (k' : text_eq name (str "..") ≡ false).
        posix_join-IsRemotePath base name b (component name k k') in
    let backups = join install_path (str "backups") p refl refl in
    let dir =
      join (posix_join install_path (str "backups")) (str "pre-update-" ++ suffix) backups h refl in
    record {
      compose = join install_path (str "docker-compose.yml") p refl refl;
      env = join install_path (str ".env") p refl refl;
      state = join install_path (str ".rustmote-state.toml") p refl refl;
      keys = join install_path (str "data") p refl refl;
      public_key =
          join _ (str "id_ed25519.pub") (join install_path (str "data") p refl refl) refl refl;
      backups = backups;
      backup_dir = dir;
      backup_compose = join _ (str "docker-compose.yml") dir refl refl;
      backup_state = join _ (str ".rustmote-state.toml") dir refl refl;
      backup_config = join _ (str "compose-config.yml") dir refl refl;
    }
