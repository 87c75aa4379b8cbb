-- ===== src/RegistryClient/Client.antt =====
-- `RegistryClient`: a transport, the cache, and how long its entries serve.
pub mod Honest
pub mod Outside
pub mod Lookup
pub mod Served
use rustmote.Prelude.{ℕ, Bool, Option, none, some, List}
use rustmote.Text.{Text}
use rustmote.Time.{DateTime, Duration, from_secs}
use rustmote.Error.{Result, ok, err}
use rustmote.Effect.{Io, pure, lift, gets, modify, ◌>>=◌, ◌>>◌}
use rustmote.Disk.{Disk, Format}
use rustmote.RegistryClient.Cache.{
  CacheStore, empty_cache, tag_list_if_fresh, digest_if_fresh, put_tag_list, put_digest, load_from,
  save_to,
}

-- What the client stands on: the disk, the `RegistryTransport`, the clock `Utc::now`, which
-- durations `chrono` can represent, and the TOML form of the cache.
pub record Hub : Type 1 where
  pub disk : Disk
  pub list_tags : Text → Io (Disk.World disk) (List Text)
  pub resolve_digest : (repo tag : Text) → Io (Disk.World disk) Text
  pub now : Disk.World disk → DateTime
  pub fits : Duration → Bool
  pub format : Format CacheStore

pub record RegistryClient : Type 0 where
  pub cache : CacheStore
  pub cache_path : Option Text
  pub ttl : Duration

abbrev pub default_ttl : Duration
default_ttl = from_secs 3600

abbrev pub with_transport : RegistryClient
with_transport = record { cache = empty_cache; cache_path = none; ttl = default_ttl }

unfoldable pub with_ttl : Duration → RegistryClient → RegistryClient
with_ttl ttl c = record c { ttl = ttl }

module _ (H : Hub) where
  abbrev pub World : Type 0
  World = Disk.World H.disk

  -- A cache file that cannot be loaded leaves the client with the cache it has.
  loaded : RegistryClient → Text → Result CacheStore → RegistryClient
  loaded c path (ok store) = record c { cache = store; cache_path = some path }
  loaded c path (err e) = record c { cache_path = some path }

  unfoldable pub with_cache_path : Text → RegistryClient → World → RegistryClient × World
  unfolding loaded
  with_cache_path path c w = let (r, w') = load_from H.disk H.format path w in (loaded c path r, w')

  -- The client and the world around it.
  pub record State : Type 0 where
    pub client : RegistryClient
    pub world : Disk.World H.disk

  unfoldable pub outside : {A : Type 0} → Io World A → Io State A
  outside m s = let (r, w) = m s.world in (r, record { client = s.client; world = w })

  unfoldable pub cache_read_tags : Text → DateTime → State → Option (List Text)
  cache_read_tags repo now s = tag_list_if_fresh H.fits s.client.cache repo s.client.ttl now

  unfoldable pub cache_read_digest : Text → Text → DateTime → State → Option Text
  cache_read_digest repo tag now s = digest_if_fresh H.fits s.client.cache repo tag s.client.ttl now

  flush_to : CacheStore → Option Text → Io World (Unit {0})
  flush_to cache none = pure tt
  flush_to cache (some path) = save_to H.disk H.format cache path

  unfoldable pub flush : Io State (Unit {0})
  unfolding flush_to
  flush s = outside (flush_to s.client.cache s.client.cache_path) s

  unfoldable pub put : (CacheStore → CacheStore) → State → State
  put change s = record {
    client = record {
      cache = change s.client.cache;
      cache_path = s.client.cache_path;
      ttl = s.client.ttl;
    };
    world = s.world;
  }

  unfoldable pub cache_write_tags : Text → List Text → DateTime → Io State (Unit {0})
  cache_write_tags repo tags now = do modify (put (put_tag_list repo tags now)); flush

  unfoldable pub cache_write_digest : Text → Text → Text → DateTime → Io State (Unit {0})
  cache_write_digest repo tag digest now = do modify (put (put_digest repo tag digest now)); flush

  -- A miss: the transport is asked, and its answer written through.
  unfoldable pub fetch_tags : Text → DateTime → Io State (List Text)
  fetch_tags repo now = do
    tags ← outside (H.list_tags repo)
    cache_write_tags repo tags now
    pure tags

  unfoldable pub fetch_digest : Text → Text → DateTime → Io State Text
  fetch_digest repo tag now = do
    digest ← outside (H.resolve_digest repo tag)
    cache_write_digest repo tag digest now
    pure digest

  unfoldable pub list_tags : Text → Io State (List Text)
  list_tags repo s =
      let now = H.now s.world in
      elim (cache_read_tags repo now s) [
        | some cached ↦ (ok cached, s)
        | none ↦ fetch_tags repo now s
      ]

  unfoldable pub resolve_digest : Text → Text → Io State Text
  resolve_digest repo tag s =
      let now = H.now s.world in
      elim (cache_read_digest repo tag now s) [
        | some cached ↦ (ok cached, s)
        | none ↦ fetch_digest repo tag now s
      ]
