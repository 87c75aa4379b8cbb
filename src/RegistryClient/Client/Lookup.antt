-- ===== src/RegistryClient/Client/Lookup.antt =====
-- The two ways through `list_tags` and `resolve_digest`.
use rustmote.Prelude.{◌≡◌, none, some, List}
use rustmote.Text.{Text}
use rustmote.Error.{ok}
use rustmote.RegistryClient.Client.{
  Hub, State, cache_read_tags, cache_read_digest, fetch_tags, fetch_digest, list_tags,
  resolve_digest,
}

module _ (H : Hub) where
  pub list_tags-hit :
      (repo : Text) (tags : List Text) (s : State H)
      → cache_read_tags H repo (H.now s.world) s ≡ some tags
      → list_tags H repo s ≡ (ok tags, s)
  unfolding list_tags
  list_tags-hit repo tags s served = rw (list_tags, served)

  pub list_tags-miss :
      (repo : Text) (s : State H)
      → cache_read_tags H repo (H.now s.world) s ≡ none
      → list_tags H repo s ≡ fetch_tags H repo (H.now s.world) s
  unfolding list_tags fetch_tags
  list_tags-miss repo s missed = rw (list_tags, missed)

  pub resolve_digest-hit :
      (repo tag digest : Text) (s : State H)
      → cache_read_digest H repo tag (H.now s.world) s ≡ some digest
      → resolve_digest H repo tag s ≡ (ok digest, s)
  unfolding resolve_digest
  resolve_digest-hit repo tag digest s served = rw (resolve_digest, served)

  pub resolve_digest-miss :
      (repo tag : Text) (s : State H)
      → cache_read_digest H repo tag (H.now s.world) s ≡ none
      → resolve_digest H repo tag s ≡ fetch_digest H repo tag (H.now s.world) s
  unfolding resolve_digest fetch_digest
  resolve_digest-miss repo tag s missed = rw (resolve_digest, missed)
