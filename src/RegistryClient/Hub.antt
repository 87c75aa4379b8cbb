-- ===== src/RegistryClient/Hub.antt =====
-- crates/rustmote-core/src/registry_client.rs, `RegistryClient::new`: the client over HTTP.
pub mod Digest
use rustmote.Prelude.{Bool, ◌⊎◌}
use rustmote.Text.{Text}
use rustmote.Time.{DateTime, Duration}
use rustmote.Error.{ok}
use rustmote.Effect.{Io, lift, ◌>>=◌}
use rustmote.Disk.{Disk, Format}
use rustmote.Places.{Places, cache_path}
use rustmote.RegistryClient.Http
use rustmote.RegistryClient.Http.{Http, HttpTransport}
use rustmote.RegistryClient.Cache.{CacheStore}
use rustmote.RegistryClient.Client.{
  Hub, RegistryClient, default_ttl, with_transport, with_cache_path, with_ttl,
}

module _ (D : Disk) (now : Disk.World D → DateTime) (fits : Duration → Bool)
    (F : Format CacheStore) where
  abbrev pub docker_hub : HttpTransport (Disk.World D) → Hub
  docker_hub T = record {
    disk = D;
    list_tags = Http.list_tags T;
    resolve_digest = Http.resolve_digest T;
    now = now;
    fits = fits;
    format = F;
  }

  -- `built` is what the builder of the HTTP client answers.
  unfoldable pub new :
      (built : Text ⊎ Http (Disk.World D))
      → Places
      → Io (Disk.World D) (HttpTransport (Disk.World D) × RegistryClient)
  new built places = do
    path ← lift (cache_path places)
    transport ← lift (Http.new built)
    λ w.
        let (client, w') = with_cache_path (docker_hub transport) path with_transport w in
        (ok (transport, with_ttl default_ttl client), w')
