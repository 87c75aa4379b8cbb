-- ===== src/Session/Auth/LetIn.antt =====
-- crates/rustmote-core/src/session/mod.rs, `authenticate`: who is let in.
use rustmote.Prelude.{
  ◌≡◌, refl, ap, ◌∙◌, ◌↔◌, ◌⊎◌, inl, inr, Bool, true, false, ◌&&◌, ◌||◌, any, Option, none, some,
  List, [], ◌∷◌, arith, Bool-cases,
}
use rustmote.Text.{Text, str}
use rustmote.Error.{ok}
use rustmote.Server.{RemoteServer}
use rustmote.Session.Auth.{
  AuthMaterial, Ssh, Attempts, answered, with_key, default_key_paths, try_key, try_keys,
  try_password, authenticate,
}

-- Files that stay, and a server whose answers do not depend on the attempts before.
pub record IsSteady {World : Type 0} (S : Ssh World) : Type 0 where
  pub there : Text → Bool
  pub loaded : Text → Option Text → Text ⊎ Ssh.Key S
  pub reply : Text → Ssh.Key S → Text ⊎ Bool
  pub password_reply : Text → Text → Text ⊎ Bool
  pub exists_is : (path : Text) (w : World) → S.exists path w ≡ there path
  pub load_is :
      (path : Text) (passphrase : Option Text) (w : World)
      → S.load_secret_key path passphrase w ≡ loaded path passphrase
  pub publickey_is :
      (user : Text) (key : Ssh.Key S) (w : World)
      → (S.authenticate_publickey user key w).0 ≡ reply user key
  pub password_is :
      (user password : Text) (w : World)
      → (S.authenticate_password user password w).0 ≡ password_reply user password

-- An answer that lets us in.
abbrev pub is_yes : Text ⊎ Bool → Bool
is_yes (inl e) = false
is_yes (inr let_in) = let_in

module _ {World : Type 0} (S : Ssh World) (steady : IsSteady S) where
  abbrev pub key_opens : Text → Text ⊎ Ssh.Key S → Bool
  key_opens user (inl e) = false
  key_opens user (inr key) = is_yes (steady.reply user key)

  -- A path that lets the user in: the key is there, it can be loaded, and the server takes it.
  abbrev pub path_opens : Text → Option Text → Text → Bool
  path_opens user passphrase path =
      steady.there path && key_opens user (steady.loaded path passphrase)

  abbrev pub password_opens : Text → Option Text → Bool
  password_opens user none = false
  password_opens user (some password) = is_yes (steady.password_reply user password)

  answered_lem :
      (method rejected broken : Text) (r : Text ⊎ Bool) (a : Attempts)
      → (answered S method rejected broken r a).0 ≡ is_yes r
  unfolding answered
  answered_lem method rejected broken (inl e) a = refl
  answered_lem method rejected broken (inr true) a = refl
  answered_lem method rejected broken (inr false) a = refl

  with_key_lem :
      (user path : Text) (found : Text ⊎ Ssh.Key S) (a : Attempts) (w : World)
      → (with_key S user path found a w).0.0 ≡ key_opens user found
  unfolding with_key
  with_key_lem user path (inl e) a w = refl
  with_key_lem user path (inr key) a w =
      answered_lem _ _ _ (S.authenticate_publickey user key w).0 a
      ∙ ap is_yes (steady.publickey_is user key w)

  try_key_lem :
      (user : Text) (passphrase : Option Text) (path : Text) (a : Attempts) (w : World)
      → (try_key S user passphrase path a w).0.0 ≡ path_opens user passphrase path
  unfolding try_key
  try_key_lem user passphrase path a w =
      let is_there = steady.exists_is path w in
      let found = steady.load_is path passphrase w in
      elim (Bool-cases (steady.there path)) [
        | inl there ↦
            rw (is_there, found, there) (with_key_lem user path (steady.loaded path passphrase) a w)
        | inr missing ↦ rw (is_there, missing) refl
      ]

  try_keys-any :
      (user : Text) (passphrase : Option Text) (paths : List Text) (a : Attempts) (w : World)
      → (try_keys S user passphrase paths a w).0.0 ≡ any (path_opens user passphrase) paths
  unfolding try_keys
  try_keys-any user passphrase [] a w = refl
  try_keys-any user passphrase (path ∷ rest) a w =
      let ((accepted, a'), w') = try_key S user passphrase path a w in
      let this = try_key_lem user passphrase path a w in
      let others = try_keys-any user passphrase rest a' w' in
      elim (Bool-cases (path_opens user passphrase path)) [
        | inl opens ↦ rw (this, opens) refl
        | inr shut ↦ rw (this, shut) others
      ]

  try_password_lem :
      (user : Text) (password : Option Text) (a : Attempts) (w : World)
      → (try_password S user password a w).0.0 ≡ password_opens user password
  unfolding try_password
  try_password_lem user none a w = refl
  try_password_lem user (some password) a w =
      answered_lem (str "password") (str "server rejected password") (str "password auth error")
        (S.authenticate_password user password w).0 a
      ∙ ap is_yes (steady.password_is user password w)

  -- With files that stay and a server whose answers do not depend on earlier attempts, authentication
  -- succeeds exactly if one of the given keys or of the default keys opens, or the password does.
  pub authenticate_iff :
      (server : RemoteServer) (auth : AuthMaterial) (w : World)
      → ((authenticate S server auth w).0 ≡ ok tt) ↔ (
          (any
              (path_opens server.ssh_user auth.key_passphrase)
              (default_key_paths S auth.extra_key_paths)
            || password_opens server.ssh_user auth.password)
          ≡ true)
  unfolding authenticate
  authenticate_iff server auth w =
      let nothing : Attempts = record { tried = []; last_error = [] } in
      let ((by_key, a), w') =
        try_keys S server.ssh_user auth.key_passphrase (default_key_paths S auth.extra_key_paths)
          nothing w in
      let keys =
        try_keys-any server.ssh_user auth.key_passphrase (default_key_paths S auth.extra_key_paths)
          nothing w in
      let password = try_password_lem server.ssh_user auth.password a w' in
      ground (arith, keys, password)
