-- ===== src/Credentials/Kept.antt =====
-- A password that was set in the credentials file is found there again.
use rustmote.Prelude.{
  ◌≡◌, refl, ◌∙◌, ℕ, ◌%◌, true, ◌==◌, Bool-cases, inl, inr, ◌⊎◌, Option, none, some, [],
  if◌then◌else◌,
}
use rustmote.Text.{Text, text_eq}
use rustmote.Error.{IoError, not_found, Result, ok, err, insecure_credentials_file}
use rustmote.Effect.{◌>>=◌, >>=-ok, >>=-err}
use rustmote.Effect.Keeps.{Keeps, Keeps-pure}
use rustmote.Effect.Hoare.{
  Anything, Hoare-at_hand, Hoare-kept, Hoare, Hoare_ran, Hoare-fact, Hoare-bind, Hoare-weaken,
}
use rustmote.Dict
use rustmote.Dict.{Dict, get-insert}
use rustmote.Credentials.{
  Vault, UnsafeFile, unsafe_store, keyring_account, check_unsafe_permissions, parse, read_contents,
  read_unsafe_file, make_parent, write_unsafe_file, found_or, get_password, set_password,
}

-- A file's permissions and contents.
abbrev pub File : Type 0
File = Option (ℕ × Text)

abbrev pub stat : File → IoError ⊎ ℕ
stat none = inl not_found
stat (some (mode, raw)) = inr mode

abbrev pub contents : File → IoError ⊎ Text
contents none = inl not_found
contents (some (mode, raw)) = inr raw

-- Opening creates a file with the mode, and leaves the mode of one that is there.
abbrev pub mode_or : ℕ → File → ℕ
mode_or mode none = mode
mode_or mode (some (old, raw)) = old

-- The file system, for the file at a path, and the TOML format, which may lose the order of the
-- entries. Each call may fail.
pub record IsFileSystem (V : Vault) (path : Text) : Type 0 where
  pub file : Vault.World V → File
  pub metadata_is : (w : Vault.World V) → V.metadata path w ≡ (stat (file w), w)
  pub read_is : (w : Vault.World V) → V.read_to_string path w ≡ (contents (file w), w)
  pub create_dir_all_keeps :
      (dir : Text) (f : File) → Keeps (λ w. file w ≡ f) (V.create_dir_all dir)
  pub open_truncates :
      (mode : ℕ) (f : File)
      → Hoare
          (λ w. file w ≡ f)
          (V.open_truncated path mode)
          (λ a w. file w ≡ some (mode_or mode f, []))
          (λ e w. Unit {0})
  pub write_fills :
      (mode : ℕ) (raw : Text)
      → Hoare
          (λ w. file w ≡ some (mode, []))
          (V.write_all path raw)
          (λ a w. file w ≡ some (mode, raw))
          (λ e w. Unit {0})
  pub sync_keeps : (f : File) → Keeps (λ w. file w ≡ f) (V.sync_all path)
  pub from_toml-to_toml :
      (d : Dict Text) (raw : Text)
      → V.to_toml d ≡ ok raw
      → (d' : Dict Text) × (V.from_toml raw ≡ inr d')
        × ((key : Text) → Dict.get d' key ≡ Dict.get d key)

module _ (V : Vault) (path : Text) (fs : IsFileSystem V path) where
  -- What reading the file gives.
  load : File → Result UnsafeFile
  load none = ok (record { passwords = [] })
  load (some (mode, raw)) =
      if mode % 512 == 384 then parse V path raw else err (insecure_credentials_file (mode % 512))

  check_none :
      (w : Vault.World V)
      → V.metadata path w ≡ (inl not_found, w)
      → check_unsafe_permissions V path w ≡ (ok tt, w)
  unfolding check_unsafe_permissions
  check_none w h = rw (check_unsafe_permissions, h, h)

  check_some :
      (mode : ℕ) (w : Vault.World V)
      → V.metadata path w ≡ (inr mode, w)
      → check_unsafe_permissions V path w
        ≡ ((if mode % 512 == 384 then ok tt else err (insecure_credentials_file (mode % 512))), w)
  unfolding check_unsafe_permissions
  check_some mode w h = elim (Bool-cases (mode % 512 == 384)) [
    | inl private ↦ rw (check_unsafe_permissions, h, private, h)
    | inr open_to_others ↦ rw (check_unsafe_permissions, h, open_to_others, h)
  ]

  read_of :
      (f : File) (w : Vault.World V)
      → V.metadata path w ≡ (stat f, w)
      → V.read_to_string path w ≡ (contents f, w)
      → read_unsafe_file V path w ≡ (load f, w)
  unfolding read_unsafe_file load read_contents
  read_of none w looked found = >>=-ok _ _ (check_none w looked) ∙ rw (read_contents, found, found)
  read_of (some (mode, raw)) w looked found =
      let checked = check_some mode w looked in
      elim (Bool-cases (mode % 512 == 384)) [
        | inl private ↦
            >>=-ok _ _ (rw private at checked) ∙ rw (read_contents, found, found, private)
        | inr open_to_others ↦ >>=-err _ _ (rw open_to_others at checked) ∙ rw open_to_others
      ]

  read-load : (w : Vault.World V) → read_unsafe_file V path w ≡ (load (fs.file w), w)
  read-load w = read_of (fs.file w) w (fs.metadata_is w) (fs.read_is w)

  abbrev IsSaved : UnsafeFile → File → Vault.World V → Type 0
  IsSaved f before w =
      (raw : Text) × (V.to_toml f.passwords ≡ ok raw) × (fs.file w ≡ some (mode_or 384 before, raw))

  Keeps-make_parent :
      (f : File) (dir : Option Text) → Keeps (λ w. fs.file w ≡ f) (make_parent V dir)
  unfolding make_parent
  Keeps-make_parent f none = Keeps-pure tt
  Keeps-make_parent f (some dir) = fs.create_dir_all_keeps dir f

  Hoare-write :
      (f : UnsafeFile) (before : File)
      → Hoare
          (λ w. fs.file w ≡ before)
          (write_unsafe_file V path f)
          (λ a w. IsSaved f before w)
          Anything
  unfolding write_unsafe_file
  Hoare-write f before =
      Hoare-bind {M = λ a w. fs.file w ≡ before} _ _
        (Hoare-kept _ (Keeps-make_parent before (V.parent path)))
        (λ made. Hoare-bind _ _ (Hoare-at_hand (V.to_toml f.passwords) (λ e w p. tt)) (λ raw.
          Hoare-fact _ (λ serialized. Hoare-bind _ _ (fs.open_truncates 384 before) (λ opened.
            Hoare-bind _ _ (fs.write_fills (mode_or 384 before) raw) (λ written.
              Hoare-weaken _ (Hoare-kept _ (fs.sync_keeps (some (mode_or 384 before, raw))))
                (λ w full. full) (λ a w full. (raw, serialized, full)) (λ e w p. tt))))))

  Hoare-read :
      (before : File)
      → Hoare
          (λ w. fs.file w ≡ before)
          (read_unsafe_file V path)
          (λ f w. (load before ≡ ok f) × (fs.file w ≡ before))
          Anything
  unfolding ◌>>=◌
  Hoare-read before = record {
    at = λ w same.
        rw (read-load w, same)
          ((Hoare-at_hand {P = λ w. fs.file w ≡ before} (load before) (λ e w p. tt)).at w same);
  }

  -- What a set that succeeds leaves.
  Hoare-set :
      (server user password : Text) (before : File)
      → Hoare
          (λ w. fs.file w ≡ before)
          (set_password V (unsafe_store path) server user password)
          (λ a w.
            (f : UnsafeFile) × (load before ≡ ok f)
            × IsSaved
                (record {
                  passwords = Dict.insert f.passwords (keyring_account server user) password;
                })
                before
                w)
          Anything
  unfolding set_password
  Hoare-set server user password before =
      Hoare-bind {M = λ f w. (load before ≡ ok f) × (fs.file w ≡ before)} _ _ (Hoare-read before)
        (λ f. Hoare-fact _ (λ loaded.
          Hoare-weaken _ (Hoare-write _ before) (λ w same. same) (λ a w saved. (f, loaded, saved))
            (λ e w p. tt)))

  -- A lookup in what the file gives.
  look_up : Text → Text → UnsafeFile → Result Text
  look_up server user f =
      found_or V server user (Dict.get f.passwords (keyring_account server user))

  abbrev after_load : Result UnsafeFile → (UnsafeFile → Result Text) → Result Text
  after_load (ok f) next = next f
  after_load (err e) next = err e

  get-load :
      (server user : Text) (w : Vault.World V) (r : Result UnsafeFile)
      → load (fs.file w) ≡ r
      → get_password V (unsafe_store path) server user w ≡ (after_load r (look_up server user), w)
  unfolding get_password look_up ◌>>=◌
  get-load server user w (ok f) loaded =
      >>=-ok (read_unsafe_file V path) _ {a = f} {w = w} {w' = w} (read-load w ∙ rw loaded)
  get-load server user w (err e) loaded =
      >>=-err (read_unsafe_file V path) _ {w = w} {w' = w} (read-load w ∙ rw loaded)

  private_of :
      (before : File) (f : UnsafeFile)
      → load before ≡ ok f
      → (mode_or 384 before % 512 == 384) ≡ true
  unfolding load
  private_of none f loaded = refl
  private_of (some (mode, raw)) f loaded = elim (Bool-cases (mode % 512 == 384)) [
    | inl private ↦ private
    | inr open_to_others ↦ let failed = rw open_to_others at loaded in cc
  ]

  load-saved :
      (before : File) (f g : UnsafeFile) (w : Vault.World V)
      → load before ≡ ok f
      → IsSaved g before w
      → (h : UnsafeFile) × (load (fs.file w) ≡ ok h)
        × ((key : Text) → Dict.get h.passwords key ≡ Dict.get g.passwords key)
  unfolding load parse
  load-saved before f g w loaded (raw, serialized, full) =
      let (d, parsed, same) = fs.from_toml-to_toml g.passwords raw serialized in
      (record { passwords = d }, rw (full, private_of before f loaded, parse, parsed), same)

  -- After a password was set in the credentials file, reading the account gives this password, and
  -- reading another account answers what it answered before, its failure included.
  pub get-set_password :
      (server user password server' user' : Text) (w w' : Vault.World V)
      → set_password V (unsafe_store path) server user password w ≡ (ok tt, w')
      → get_password V (unsafe_store path) server' user' w' ≡ (
          if text_eq (keyring_account server user) (keyring_account server' user')
          then (ok password, w')
          else ((get_password V (unsafe_store path) server' user' w).0, w'))
  unfolding look_up found_or
  get-set_password server user password server' user' w w' ran =
      let (f, loaded, saved) = Hoare_ran (Hoare-set server user password (fs.file w)) refl ran in
      let (h, reloaded, same) = load-saved (fs.file w) f _ w' loaded saved in
      let here = keyring_account server user in
      let there = keyring_account server' user' in
      let found = same there ∙ get-insert f.passwords here there password in
      rw (get-load server' user' w (ok f) loaded, get-load server' user' w' (ok h) reloaded, found)
        (elim (Bool-cases (text_eq here there)) [ inl this ↦ rw this | inr other ↦ rw other ])
