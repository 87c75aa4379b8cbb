-- ===== src/Disk.antt =====
-- Files that are read whole and replaced whole, as the configuration, the pinned keys and the cache
-- of the container registry are: `std::fs` and the `toml` crate are parameters.
pub mod Atomic
use rustmote.Prelude.{Option, none, some, ◌⊎◌, inl, inr}
use rustmote.Text.{Text, str}
use rustmote.Error.{IoError, not_found, io, Result, ok, err, config_parse}
use rustmote.Effect.{Io, pure, lift, ◌>>=◌, ◌>>◌}

pub record Disk : Type 1 where
  pub World : Type 0
  pub read_to_string : (path : Text) → World → (IoError ⊎ Text) × World
  pub create_dir_all : (path : Text) → Io World (Unit {0})
  pub write : (path content : Text) → Io World (Unit {0})
  pub rename : (old new : Text) → Io World (Unit {0})
  -- `Path::parent` and `Path::with_extension`
  pub parent : Text → Option Text
  pub with_extension : (path extension : Text) → Text

-- `toml::from_str`, its error as a text, and `toml::to_string_pretty`.
pub record Format (A : Type 0) : Type 0 where
  pub from_toml : Text → Text ⊎ A
  pub to_toml : A → Result Text

module _ (D : Disk) where
  open D use {World}

  unfoldable pub parse : {A : Type 0} → Format A → Text → Text → Result A
  parse F path raw = elim (Format.from_toml F raw) [
    | inl why ↦ err (config_parse path why)
    | inr a ↦ ok a
  ]

  -- `load_from`, which the three have in common: a missing file is the default.
  unfoldable pub load_from : {A : Type 0} → Format A → (default : A) → Text → Io World A
  unfolding parse
  load_from F default path w =
      let (found, w') = D.read_to_string path w in
      elim found [
        | inr raw ↦ (parse F path raw, w')
        | inl not_found ↦ (ok default, w')
        | inl e ↦ (err (io e), w')
      ]

  -- The directory of a path is made where it has one.
  unfoldable pub make_parent : Option Text → Io World (Unit {0})
  make_parent none = pure tt
  make_parent (some dir) = D.create_dir_all dir

  -- The last two calls of each `save_to`.
  unfoldable pub replace : (tmp path content : Text) → Io World (Unit {0})
  replace tmp path content = do D.write tmp content; D.rename tmp path

  -- `save_to` of the pinned keys and of the cache.
  unfoldable pub save_beside : {A : Type 0} → Format A → A → Text → Io World (Unit {0})
  save_beside F a path = do
    make_parent (D.parent path)
    serialized ← lift (Format.to_toml F a)
    replace (D.with_extension path (str "toml.tmp")) path serialized
