-- ===== src/Relay/Commands/Argv.antt =====
-- A built command is read by the shell as the words that are meant: a path is one word of it, and
-- no character of it means anything to a shell.
use rustmote.Prelude.{
  ℕ, ◌≡◌, refl, ◌∙◌, Bool, true, ◌||◌, List, [], ◌∷◌, ◌++◌, arith, all, ◌==◌, all_mono,
  all-append_iff,
}
use rustmote.Text.{Text, str, split}
use rustmote.Text.Split.{contains-false_of_all, split_of_free, split-append_sep}
use rustmote.Error.{Result, ok, ◌>>=◌, >>=-eq-ok}
use rustmote.Relay.Commands.{
  is_path_char, validate_remote_path, test_dir_exists, test_file_exists, mkdir_p, cat_file,
  copy_file,
}
use rustmote.Relay.Commands.Validators.{validate_remote_path_iff}

-- The commands that have paths for arguments only.
pub data Request : Type 0 where
  test_dir test_file mkdir cat : Text → Request
  copy : (src dst : Text) → Request

abbrev pub build : Request → Result Text
build (test_dir p) = test_dir_exists p
build (test_file p) = test_file_exists p
build (mkdir p) = mkdir_p p
build (cat p) = cat_file p
build (copy s d) = copy_file s d

abbrev pub argv : Request → List Text
argv (test_dir p) = str "test" ∷ str "-d" ∷ p ∷ []
argv (test_file p) = str "test" ∷ str "-f" ∷ p ∷ []
argv (mkdir p) = str "mkdir" ∷ str "-p" ∷ p ∷ []
argv (cat p) = str "cat" ∷ p ∷ []
argv (copy s d) = str "cp" ∷ str "-a" ∷ s ∷ d ∷ []

-- The characters that stand for themselves, and the space between words.
abbrev pub is_plain : ℕ → Bool
is_plain c = is_path_char c || c == b' '

path_word : (p : Text) → all is_path_char p ≡ true → split p b' ' ≡ p ∷ []
path_word p h = split_of_free p b' ' (contains-false_of_all is_path_char p b' ' refl h)

path_plain : (p : Text) → all is_path_char p ≡ true → all is_plain p ≡ true
path_plain p h = all_mono is_path_char is_plain p (λ c e. ground arith) h

accepted : (p q : Text) → validate_remote_path p ≡ ok q → (all is_path_char p ≡ true) × (p ≡ q)
accepted p q h = let (path, same) = (validate_remote_path_iff p q).0 h in (path.allowed, same)

two_words :
    (s d : Text)
    → all is_path_char s ≡ true
    → all is_path_char d ≡ true
    → split (s ++ (b' ' ∷ d)) b' ' ≡ s ∷ d ∷ []
two_words s d hs hd = split-append_sep s d b' ' ∙ rw (path_word s hs, path_word d hd)

-- A command with one path in it.
built :
    (f : Text → Text) (path command : Text)
    → (validate_remote_path path >>= λ p. ok (f p)) ≡ ok command
    → (all is_path_char path ≡ true) × (command ≡ f path)
built f path command h =
    let (p, e, same) = >>=-eq-ok (validate_remote_path path) _ h in
    let (allowed, here) = accepted path p e in (allowed, ground (arith, here, same))

-- Whatever the paths, a command that is built splits at its spaces into the words that are meant,
-- and has no character besides spaces and those of paths.
pub argv-build :
    (r : Request) (command : Text)
    → build r ≡ ok command
    → (split command b' ' ≡ argv r) × (all is_plain command ≡ true)
unfolding split test_dir_exists test_file_exists mkdir_p cat_file copy_file
argv-build (test_dir p) command h =
    let (allowed, e) = built (λ q. str "test -d " ++ q) p command h in
    (rw e (rw (path_word p allowed)), rw e (path_plain p allowed))
argv-build (test_file p) command h =
    let (allowed, e) = built (λ q. str "test -f " ++ q) p command h in
    (rw e (rw (path_word p allowed)), rw e (path_plain p allowed))
argv-build (mkdir p) command h =
    let (allowed, e) = built (λ q. str "mkdir -p " ++ q) p command h in
    (rw e (rw (path_word p allowed)), rw e (path_plain p allowed))
argv-build (cat p) command h =
    let (allowed, e) = built (λ q. str "cat " ++ q) p command h in
    (rw e (rw (path_word p allowed)), rw e (path_plain p allowed))
argv-build (copy s d) command h =
    let (s', hs, h1) = >>=-eq-ok (validate_remote_path s) _ h in
    let (allowed_s, same) = accepted s s' hs in
    let (allowed_d, e) = built (λ q. str "cp -a " ++ (s' ++ (str " " ++ q))) d command h1 in
    (
      rw (e, ← same) (rw (two_words s d allowed_s allowed_d)),
      rw (e, ← same)
          ((all-append_iff is_plain s (b' ' ∷ d)).1
            (path_plain s allowed_s, path_plain d allowed_d)),
    )
