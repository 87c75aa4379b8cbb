-- ===== src/Tests/Credentials.antt =====
-- The credentials file on a host with one file and a format that holds one entry.
use rustmote.Prelude.{
  ◌≡◌, refl, ℕ, arith, [], ◌∷◌, ◌++◌, length, take, drop, none, some, ◌⊎◌, inl, inr, true, false,
  Bool, sym, if◌then◌else◌, ap,
}
use rustmote.Text.{Text, str, text_eq, byte_len, bytes, encode_utf8}
use rustmote.Error.{Result, ok, err, config_serialize, no_config_dir, insecure_credentials_file}
use rustmote.Effect.{◌>>=◌}
use rustmote.Dict
use rustmote.Dict.{Dict}
use rustmote.Server.{validate_name}
use rustmote.Credentials.{
  Vault, no_entry, unsafe_store, keyring_account, get_password, set_password, delete_password,
  read_unsafe_file, write_unsafe_file, check_unsafe_permissions,
}
use rustmote.Credentials.Account.{keyring_account_injective}
use rustmote.Credentials.Insecure.{insecure_refused}
use rustmote.Credentials.Kept.{File, stat, contents, mode_or, IsFileSystem, get-set_password}

abbrev encode_entry : Dict Text → Result Text
encode_entry [] = ok []
encode_entry ((k, v) ∷ []) = ok (length k ∷ (k ++ v))
encode_entry (e ∷ f ∷ rest) = err (config_serialize [])

abbrev decode_entry : Text → Text ⊎ Dict Text
decode_entry [] = inr []
decode_entry (n ∷ s) = inr ((take n s, drop n s) ∷ [])

abbrev fill : Text → File → File
fill raw none = none
fill raw (some (mode, old)) = some (mode, raw)

abbrev pub vault : Vault
vault = record {
  World = File;
  new_entry = λ service account w. (none, w);
  get_entry = λ service account w. (inl no_entry, w);
  set_entry = λ service account password w. (none, w);
  delete_entry = λ service account w. (none, w);
  prompt_password = λ msg w. (ok [], w);
  metadata = λ path w. (stat w, w);
  read_to_string = λ path w. (contents w, w);
  parent = λ path. none;
  create_dir_all = λ path w. (ok tt, w);
  open_truncated = λ path mode w. (ok tt, some (mode_or mode w, []));
  write_all = λ path content w. (ok tt, fill content w);
  sync_all = λ path w. (ok tt, w);
  from_toml = decode_entry;
  to_toml = encode_entry;
  credentials_path = err no_config_dir;
}

abbrev pub cut : ℕ → Text → Text × Text
cut n s = (take n s, drop n s)

abbrev put_back : ℕ → Text × Text → Text × Text
put_back c (s, t) = (c ∷ s, t)

pub take-length : (s t : Text) → cut (length s) (s ++ t) ≡ (s, t)
take-length [] t = refl
take-length (c ∷ s) t = ap (put_back c) (take-length s t)

abbrev unwrap : Result Text → Text
unwrap (ok raw) = raw
unwrap (err e) = []

abbrev is_ok : Result Text → Bool
is_ok (ok raw) = true
is_ok (err e) = false

read-write :
    (d : Dict Text) (raw : Text)
    → encode_entry d ≡ ok raw
    → (d' : Dict Text) × (decode_entry raw ≡ inr d')
      × ((key : Text) → Dict.get d' key ≡ Dict.get d key)
read-write [] raw written =
    let same : [] ≡ raw = ap unwrap written in ([], ap decode_entry (sym same), λ key. refl)
read-write ((k, v) ∷ []) raw written =
    let same : length k ∷ (k ++ v) ≡ raw = ap unwrap written in
    (
      cut (length k) (k ++ v) ∷ [],
      ap decode_entry (sym same),
      λ key. ap (λ p. Dict.get (p ∷ []) key) (take-length k v),
    )
read-write (e ∷ f ∷ rest) raw written =
    let failed : false ≡ true = ap is_ok written in absurd (ground arith)

vault-IsFileSystem : IsFileSystem vault (str "/c")
vault-IsFileSystem = record {
  file = λ w. w;
  metadata_is = λ w. refl;
  read_is = λ w. refl;
  create_dir_all_keeps = λ dir f. record { at = λ w same. same };
  open_truncates = λ mode f. record { at = λ w same. ap (λ g. some (mode_or mode g, [])) same };
  write_fills = λ mode raw. record { at = λ w same. ap (fill raw) same };
  sync_keeps = λ f. record { at = λ w same. same };
  from_toml-to_toml = read-write;
}

abbrev saved : File
saved = some (384, 9 ∷ str "home:rootsecret")

get-set_password_example :
    get_password vault (unsafe_store (str "/c")) (str "home") (str "root") saved ≡ (
      if text_eq
        (keyring_account (str "home") (str "root"))
        (keyring_account (str "home") (str "root"))
      then (ok (str "secret"), saved)
      else ((get_password vault (unsafe_store (str "/c")) (str "home") (str "root") none).0, saved))
unfolding set_password read_unsafe_file check_unsafe_permissions write_unsafe_file Dict.insert
    keyring_account ◌>>=◌
get-set_password_example =
    get-set_password vault (str "/c") vault-IsFileSystem (str "home") (str "root") (str "secret")
      (str "home") (str "root") none saved refl

insecure_refused_example :
    (get_password vault (unsafe_store (str "/c")) (str "home") (str "root") (some (420, []))
      ≡ (err (insecure_credentials_file 420), some (420, [])))
    × (set_password vault
          (unsafe_store (str "/c"))
          (str "home")
          (str "root")
          (str "x")
          (some (420, []))
        ≡ (err (insecure_credentials_file 420), some (420, [])))
    × (delete_password vault (unsafe_store (str "/c")) (str "home") (str "root") (some (420, []))
        ≡ (err (insecure_credentials_file 420), some (420, [])))
insecure_refused_example =
    insecure_refused vault (str "/c") (str "home") (str "root") (str "x") 420 (some (420, []))
      (some (420, [])) refl (λ e. absurd (omega arith))

home_ok : validate_name (str "home") ≡ ok tt
unfolding validate_name byte_len bytes encode_utf8
home_ok = refl

keyring_account_injective_example : (str "home" ≡ str "home") × (str "a:b" ≡ str "a:b")
keyring_account_injective_example =
    keyring_account_injective (str "home") (str "home") (str "a:b") (str "a:b") home_ok home_ok refl
