-- ===== src/RegistryClient/Client/Served.antt =====
-- What was fetched is served from the cache for as long as it is fresh.
use rustmote.Prelude.{◌≡◌, refl, sym, ap, ◌∙◌, true, none, some, List}
use mathlib.Core.Path.{subst}
use rustmote.Text.{Text, text_eq}
use rustmote.Text.Laws.{text_eq_iff}
use rustmote.Time.{DateTime, Duration}
use rustmote.Error.{ok}
use rustmote.Effect.Hoare.{Anything, Hoare, Hoare_ran, Hoare-bind, Hoare-modify, Hoare-pure}
use rustmote.Dict
use rustmote.Dict.{get-insert}
use rustmote.RegistryClient.Cache.{TagsEntry, CacheStore, is_fresh, tag_list_if_fresh, put_tag_list}
use rustmote.RegistryClient.Client.{
  Hub, World, State, RegistryClient, cache_read_tags, cache_write_tags, flush, put, fetch_tags,
  list_tags,
}
use rustmote.RegistryClient.Client.Outside.{Hoare-outside}
use rustmote.RegistryClient.Client.Lookup.{list_tags-hit, list_tags-miss}

module _ (H : Hub) where
  -- A client that has put the tags in its cache.
  holding : Text → List Text → DateTime → RegistryClient → RegistryClient
  holding repo tags now c = record {
    cache = put_tag_list repo tags now c.cache;
    cache_path = c.cache_path;
    ttl = c.ttl;
  }

  Hoare-fetch_tags :
      (repo : Text) (now : DateTime) (c : RegistryClient)
      → Hoare
          (λ s. s.client ≡ c)
          (fetch_tags H repo now)
          (λ tags s. s.client ≡ holding repo tags now c)
          Anything
  unfolding fetch_tags cache_write_tags put holding flush
  Hoare-fetch_tags repo now c =
      Hoare-bind {M = λ tags s. s.client ≡ c} _ _ (Hoare-outside H _ (λ s same tags w ran. same))
        (λ tags.
          Hoare-bind {M = λ u s. s.client ≡ holding repo tags now c} _ _
            (Hoare-bind {M = λ u s. s.client ≡ holding repo tags now c} _ _
              (Hoare-modify _ (λ s same. ap (holding repo tags now) same))
              (λ u. record {
                at = λ s same. (Hoare-outside H _ (λ s same u w ran. same)).at s same;
              }))
            (λ u. Hoare-pure tags (λ s same. same)))

  serves :
      (repo : Text) (e : TagsEntry) (c : CacheStore) (ttl : Duration) (now : DateTime)
      → Dict.get c.tags repo ≡ some e
      → is_fresh H.fits e.cached_at ttl now ≡ true
      → tag_list_if_fresh H.fits c repo ttl now ≡ some e.tags
  unfolding tag_list_if_fresh
  serves repo e c ttl now found fresh = rw (tag_list_if_fresh, found, fresh)

  served_by_holding :
      (repo : Text) (tags : List Text) (at now : DateTime) (c : RegistryClient)
      → is_fresh H.fits at c.ttl now ≡ true
      → tag_list_if_fresh H.fits (put_tag_list repo tags at c.cache) repo c.ttl now ≡ some tags
  unfolding put_tag_list
  served_by_holding repo tags at now c fresh =
      let e : TagsEntry = record { cached_at = at; tags = tags } in
      let itself : text_eq repo repo ≡ true = (text_eq_iff repo repo).1 refl in
      let found : Dict.get (Dict.insert c.cache.tags repo e) repo ≡ some e =
        get-insert c.cache.tags repo repo e ∙ rw itself in
      serves repo e (put_tag_list repo tags at c.cache) c.ttl now found fresh

  -- After the tags were not in the cache and were fetched, whatever the world has become, the client
  -- answers them again for as long as they are fresh, and neither it nor the world changes.
  pub list_tags-served :
      (repo : Text) (tags : List Text) (s s' : State H) (later : World H)
      → cache_read_tags H repo (H.now s.world) s ≡ none
      → list_tags H repo s ≡ (ok tags, s')
      → is_fresh H.fits (H.now s.world) s.client.ttl (H.now later) ≡ true
      → list_tags H repo (record { client = s'.client; world = later })
        ≡ (ok tags, record { client = s'.client; world = later })
  unfolding cache_read_tags holding
  list_tags-served repo tags s s' later missed listed fresh =
      let now = H.now s.world in
      let same : s'.client ≡ holding repo tags now s.client =
        Hoare_ran (Hoare-fetch_tags repo now s.client) refl
          (sym (list_tags-miss H repo s missed) ∙ listed) in
      let hit =
        subst (λ c. tag_list_if_fresh H.fits c.cache repo c.ttl (H.now later) ≡ some tags)
          (sym same) (served_by_holding repo tags now (H.now later) s.client fresh) in
      list_tags-hit H repo tags (record { client = s'.client; world = later }) hit
