-- ===== src/Tests/Client.antt =====
-- A client of a Docker Hub that knows one repository, at a time that does not pass.
use rustmote.Prelude.{◌≡◌, refl, [], ◌∷◌, List, none, some, inl, inr, true}
use rustmote.Text.{Text, str, starts_with}
use rustmote.Error.{ok}
use rustmote.Effect.{◌>>=◌}
use rustmote.Dict
use rustmote.Disk.{Format}
use rustmote.RegistryClient.Http
use rustmote.RegistryClient.Http.{
  Http, HttpTransport, Response, fetch_token, call, map_err, successful, header_digest,
}
use rustmote.RegistryClient.Http.Digest.{IsSha}
use rustmote.RegistryClient.Cache.{
  CacheStore, empty_cache, is_fresh, tag_list_if_fresh, digest_if_fresh,
}
use rustmote.RegistryClient.Client.{
  Hub, State, with_transport, default_ttl, list_tags, resolve_digest, cache_read_tags,
  cache_read_digest, fetch_tags, cache_write_tags, fetch_digest, cache_write_digest, flush, put,
  outside,
}
use rustmote.RegistryClient.Client.Honest.{Told, IsHonest, IsCurrent, list_tags-IsCurrent}
use rustmote.RegistryClient.Client.Served.{list_tags-served}
use rustmote.RegistryClient.Hub.{docker_hub}
use rustmote.RegistryClient.Hub.Digest.{docker_hub-IsSha}
use rustmote.Tests.Disk.{Files, disk, empty_disk}

abbrev the_tags : List Text
the_tags = str "1.1" ∷ str "1.2" ∷ []

abbrev the_digest : Text
the_digest = str "sha256:ab"

abbrev repo : Text
repo = str "rustdesk/rustdesk-server"

abbrev answer : Response
answer = record { is_success = true; status = str "200 OK"; digest = some the_digest }

abbrev transport : HttpTransport Files
transport = record {
  http = record {
    send = λ request w. (inr answer, w);
    json_token = λ response w. (inr (str "t"), w);
    json_tags = λ response w. (inr (some the_tags), w);
  };
  registry_base = str "r";
  auth_base = str "a";
}

abbrev cache_format : Format CacheStore
cache_format = record { from_toml = λ raw. inl []; to_toml = λ cache. ok [] }

abbrev hub : Hub
hub = docker_hub disk (λ w. 5) (λ ttl. true) cache_format transport

abbrev start : State hub
start = record { client = with_transport; world = empty_disk }

abbrev listed : State hub
listed = (list_tags hub repo start).1

-- The disk has changed.
abbrev later : Files
later path = some []

nothing_cached : cache_read_tags hub repo 5 start ≡ none
unfolding cache_read_tags tag_list_if_fresh Dict.get
nothing_cached = refl

lists : list_tags hub repo start ≡ (ok the_tags, listed)
unfolding list_tags cache_read_tags tag_list_if_fresh Dict.get fetch_tags cache_write_tags flush put
    outside Http.list_tags fetch_token call map_err successful ◌>>=◌
lists = refl

fresh : is_fresh (λ ttl. true) 5 default_ttl 5 ≡ true
unfolding is_fresh
fresh = refl

list_tags-served_example :
    list_tags hub repo (record { client = listed.client; world = later })
    ≡ (ok the_tags, record { client = listed.client; world = later })
list_tags-served_example =
    list_tags-served hub repo the_tags start listed later nothing_cached lists fresh

-- What the hub says at all times.
told : Told hub
unfolding Http.list_tags Http.resolve_digest fetch_token call map_err successful header_digest ◌>>=◌
    starts_with
told = record {
  Tags = λ r tags at. tags ≡ the_tags;
  Digest = λ r tag digest at. digest ≡ the_digest;
  tags = λ r tags w w' e. cc;
  digest = λ r tag digest w w' e. cc;
}

empty-IsHonest : IsHonest hub told empty_cache
unfolding Dict.get
empty-IsHonest = record {
  tags = λ r e found. absurd cc;
  digests = λ r tag e no_colon found. absurd cc;
}

list_tags-IsCurrent_example :
    IsCurrent hub told start (λ at. told.Tags repo the_tags at)
    × IsHonest hub told listed.client.cache
list_tags-IsCurrent_example =
    list_tags-IsCurrent hub told repo the_tags start listed empty-IsHonest lists

abbrev resolved : State hub
resolved = (resolve_digest hub repo (str "1.2") start).1

resolves : resolve_digest hub repo (str "1.2") start ≡ (ok the_digest, resolved)
unfolding resolve_digest cache_read_digest digest_if_fresh Dict.get fetch_digest cache_write_digest
    flush put outside Http.resolve_digest fetch_token call map_err successful header_digest
    starts_with ◌>>=◌
resolves = refl

docker_hub-IsSha_example :
    IsCurrent hub told start (λ at. told.Digest repo (str "1.2") the_digest at × IsSha the_digest)
unfolding Dict.get
docker_hub-IsSha_example =
    docker_hub-IsSha disk (λ w. 5) (λ ttl. true) cache_format transport told repo (str "1.2")
      the_digest start resolved refl empty-IsHonest (λ key e found. absurd cc) resolves
