-- ===== src/Session/Auth.antt =====
-- crates/rustmote-core/src/session/mod.rs, `authenticate`: the keys in their order, then the
-- password. The `russh` crate and the file system are parameters.
pub mod LetIn
use rustmote.Prelude.{
  Bool, true, false, Option, none, some, List, [], ◌∷◌, ◌++◌, ◌⊎◌, inl, inr, if◌then◌else◌,
}
use rustmote.Text.{Text, str, join}
use rustmote.Net.{IpAddr}
use rustmote.Error.{RustmoteError, Result, ok, err, ssh_auth_failed, ssh_connection}
use rustmote.Effect.{Io}
use rustmote.Server.{RemoteServer}

pub record AuthMaterial : Type 0 where
  pub extra_key_paths : List Text
  pub key_passphrase : Option Text
  pub password : Option Text

-- `Path::exists`, `load_secret_key`, the two calls of the handle, `env::home_dir`, `Path::join` and
-- how an address is printed. Errors are texts.
pub record Ssh (World : Type 0) : Type 1 where
  pub Key : Type 0
  pub exists : Text → World → Bool
  pub load_secret_key : (path : Text) → (passphrase : Option Text) → World → Text ⊎ Key
  pub authenticate_publickey : (user : Text) → Key → World → (Text ⊎ Bool) × World
  pub authenticate_password : (user password : Text) → World → (Text ⊎ Bool) × World
  pub home_dir : Option Text
  pub join : Text → Text → Text
  pub show_ip : IpAddr → Text

-- The variables of the attempts.
pub record Attempts : Type 0 where
  pub tried : List Text
  pub last_error : Text

module _ {World : Type 0} (S : Ssh World) where
  open S use {Key}

  unfoldable pub default_key_paths : List Text → List Text
  default_key_paths extras = elim S.home_dir [
    | none ↦ extras
    | some home ↦
        let ssh = S.join home (str ".ssh") in
        extras ++ (S.join ssh (str "id_ed25519") ∷ S.join ssh (str "id_rsa") ∷ [])
  ]

  -- One attempt or several: whether the server let us in, and the variables after it.
  abbrev pub Attempt : Type 0
  Attempt = Attempts → World → (Bool × Attempts) × World

  failed : Attempts → (method why : Text) → Attempts
  failed a method why = record { tried = a.tried ++ (method ∷ []); last_error = why }

  -- What the server's answer means: `rejected` and `broken` are the two messages.
  answered : (method rejected broken : Text) → Text ⊎ Bool → Attempts → Bool × Attempts
  answered method rejected broken (inr true) a =
      (true, record { tried = a.tried ++ (method ∷ []); last_error = a.last_error })
  answered method rejected broken (inr false) a = (false, failed a method rejected)
  answered method rejected broken (inl e) a = (false, failed a method (broken ++ str ": " ++ e))

  with_key : (user path : Text) → Text ⊎ Key → Attempt
  with_key user path (inl e) a w =
      ((false, failed a (str "publickey") (str "could not load " ++ path ++ str ": " ++ e)), w)
  with_key user path (inr key) a w =
      let (reply, w') = S.authenticate_publickey user key w in
      (
        answered (str "publickey") (str "server rejected key " ++ path)
            (str "publickey auth error with " ++ path) reply a,
        w',
      )

  -- One turn of the loop over the candidates.
  unfoldable pub try_key : (user : Text) (passphrase : Option Text) → (path : Text) → Attempt
  unfolding with_key answered failed
  try_key user passphrase path a w =
      if S.exists path w
      then with_key user path (S.load_secret_key path passphrase w) a w
      else ((false, a), w)

  unfoldable pub try_keys : (user : Text) (passphrase : Option Text) → List Text → Attempt
  try_keys user passphrase [] a w = ((false, a), w)
  try_keys user passphrase (path ∷ rest) a w =
      let ((accepted, a'), w') = try_key user passphrase path a w in
      let others = try_keys user passphrase rest a' w' in
      if accepted then ((true, a'), w') else others

  unfoldable pub try_password : (user : Text) → Option Text → Attempt
  unfolding answered failed
  try_password user none a w = ((false, a), w)
  try_password user (some password) a w =
      let (reply, w') = S.authenticate_password user password w in
      (
        answered (str "password") (str "server rejected password") (str "password auth error") reply
            a,
        w',
      )

  methods_text : List Text → Text
  methods_text [] = str "(none — no key found, no password supplied)"
  methods_text (m ∷ tried) = join (str ",") (m ∷ tried)

  unfoldable pub authenticate : RemoteServer → AuthMaterial → Io World (Unit {0})
  unfolding methods_text
  authenticate server auth w =
      let candidates = default_key_paths auth.extra_key_paths in
      let nothing : Attempts = record { tried = []; last_error = [] } in
      let ((by_key, a), w') = try_keys server.ssh_user auth.key_passphrase candidates nothing w in
      let ((by_password, b), w'') = try_password server.ssh_user auth.password a w' in
      if by_key then (ok tt, w') else if by_password then (ok tt, w'') else (
        err (
            ssh_auth_failed server.ssh_user (S.show_ip server.host) (methods_text b.tried)
              b.last_error),
        w'',
      )

  -- `load_ssh_key`.
  unfoldable pub load_ssh_key : (path : Text) → Option Text → World → Result Key
  load_ssh_key path passphrase w = elim (S.load_secret_key path passphrase w) [
    | inl e ↦ err (ssh_connection (str "load key " ++ path ++ str ": " ++ e))
    | inr key ↦ ok key
  ]
