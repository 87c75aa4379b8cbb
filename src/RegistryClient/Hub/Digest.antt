-- ===== src/RegistryClient/Hub/Digest.antt =====
-- crates/rustmote-core/src/registry_client.rs: what `resolve_digest` answers, from Docker Hub
-- through the cache.
use rustmote.Prelude.{◌≡◌, Bool, false, some}
use rustmote.Text.{Text}
use rustmote.Text.Split.{contains}
use rustmote.Time.{DateTime, Duration}
use rustmote.Error.{ok}
use rustmote.Effect.Hoare.{Hoare_ran}
use rustmote.Dict
use rustmote.Disk.{Disk, Format}
use rustmote.RegistryClient.Http.{HttpTransport}
use rustmote.RegistryClient.Http.Digest.{IsSha, resolve_digest-IsSha}
use rustmote.RegistryClient.Cache.{DigestEntry, CacheStore, digest_key}
use rustmote.RegistryClient.Client.{Hub, State, resolve_digest}
use rustmote.RegistryClient.Client.Honest.{Told, IsHonest, IsCurrent, resolve_digest-IsCurrent}
use rustmote.RegistryClient.Hub.{docker_hub}

module _ (D : Disk) (now : Disk.World D → DateTime) (fits : Duration → Bool) (F : Format CacheStore)
    (T : HttpTransport (Disk.World D)) (told : Told (docker_hub D now fits F T)) where
  abbrev TheHub : Hub
  TheHub = docker_hub D now fits F T

  -- Told, and a digest.
  told_sha : Told TheHub
  told_sha = record {
    Tags = told.Tags;
    Digest = λ repo tag digest at. told.Digest repo tag digest at × IsSha digest;
    tags = told.tags;
    digest = λ repo tag answer w w' ran.
        (told.digest repo tag answer w w' ran, Hoare_ran (resolve_digest-IsSha T repo tag) tt ran);
  }

  -- For a repository without a colon, and from a cache whose digests were told and start with
  -- `sha256:`, the digest that is answered starts with it and was told, now or at a time from which
  -- it is fresh.
  pub docker_hub-IsSha :
      (repo tag digest : Text) (s s' : State TheHub)
      → contains repo b':' ≡ false
      → IsHonest TheHub told s.client.cache
      → ((key : Text) (e : DigestEntry)
          → Dict.get s.client.cache.digests key ≡ some e
          → IsSha e.digest)
      → resolve_digest TheHub repo tag s ≡ (ok digest, s')
      → IsCurrent TheHub told s (λ at. told.Digest repo tag digest at × IsSha digest)
  unfolding told_sha
  docker_hub-IsSha repo tag digest s s' no_colon honest all_sha resolved =
      (resolve_digest-IsCurrent TheHub told_sha repo tag digest s s' no_colon
        (record {
          tags = honest.tags;
          digests = λ repo tag e no_colon found.
              (honest.digests repo tag e no_colon found, all_sha (digest_key repo tag) e found);
        })
        resolved).0
