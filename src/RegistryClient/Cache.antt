-- ===== src/RegistryClient/Cache.antt =====
-- `CacheStore`: the answers of the registry with the times at which they were asked for.
pub mod Keys
use rustmote.Prelude.{
  ℕ, ◌+◌, Bool, true, false, Option, none, some, List, [], ◌∷◌, ◌++◌, ltb, if◌then◌else◌,
}
use rustmote.Text.{Text}
use rustmote.Time.{DateTime, Duration}
use rustmote.Effect.{Io}
use rustmote.Dict
use rustmote.Dict.{Dict}
use rustmote.Disk
use rustmote.Disk.{Disk, Format}

pub record TagsEntry : Type 0 where
  pub cached_at : DateTime
  pub tags : List Text

pub record DigestEntry : Type 0 where
  pub cached_at : DateTime
  pub digest : Text

pub record CacheStore : Type 0 where
  pub tags : Dict TagsEntry
  pub digests : Dict DigestEntry

-- `Default`.
abbrev pub empty_cache : CacheStore
empty_cache = record { tags = []; digests = [] }

unfoldable pub digest_key : Text → Text → Text
digest_key repo tag = repo ++ (b':' ∷ tag)

-- `fits` tells whether `chrono::Duration::from_std` can represent a duration. The difference of the
-- times is signed: an entry from the future is fresh.
unfoldable pub is_fresh : (fits : Duration → Bool) → DateTime → Duration → DateTime → Bool
is_fresh fits cached_at ttl now = if fits ttl then ltb now (cached_at + ttl) else true

module _ (fits : Duration → Bool) where
  unfoldable pub tag_list_if_fresh : CacheStore → Text → Duration → DateTime → Option (List Text)
  tag_list_if_fresh c repo ttl now = elim (Dict.get c.tags repo) [
    | none ↦ none
    | some e ↦ if is_fresh fits e.cached_at ttl now then some e.tags else none
  ]

  unfoldable pub digest_if_fresh : CacheStore → Text → Text → Duration → DateTime → Option Text
  digest_if_fresh c repo tag ttl now = elim (Dict.get c.digests (digest_key repo tag)) [
    | none ↦ none
    | some e ↦ if is_fresh fits e.cached_at ttl now then some e.digest else none
  ]

unfoldable pub put_tag_list : Text → List Text → DateTime → CacheStore → CacheStore
put_tag_list repo tags at c = record c {
  tags = Dict.insert c.tags repo (record { cached_at = at; tags = tags });
}

unfoldable pub put_digest : Text → Text → Text → DateTime → CacheStore → CacheStore
put_digest repo tag digest at c = record c {
  digests =
      Dict.insert c.digests (digest_key repo tag) (record { cached_at = at; digest = digest });
}

module _ (D : Disk) (F : Format CacheStore) where
  unfoldable pub load_from : Text → Io (Disk.World D) CacheStore
  load_from path = Disk.load_from D F empty_cache path

  unfoldable pub save_to : CacheStore → Text → Io (Disk.World D) (Unit {0})
  save_to c path = Disk.save_beside D F c path
