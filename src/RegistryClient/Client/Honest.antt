-- ===== src/RegistryClient/Client/Honest.antt =====
-- What the client answers was told by the registry, and not too long ago.
use rustmote.Prelude.{
  ◌≡◌, refl, sym, ap, ◌∙◌, ◌⊎◌, inl, inr, Bool, true, false, Option, none, some, List, Bool-cases,
  Option-cases, arith, if◌then◌else◌,
}
use mathlib.Core.Path.{subst}
use rustmote.Text.{Text, text_eq}
use rustmote.Text.Laws.{text_eq_iff}
use rustmote.Text.Split.{contains}
use rustmote.Time.{DateTime}
use rustmote.Error.{Result, ok}
use rustmote.Effect.{pure, modify, ◌>>◌}
use rustmote.Effect.Hoare.{Anything, Hoare, Hoare_ran, Hoare-bind, Hoare-modify, Hoare-pure}
use rustmote.Dict
use rustmote.Dict.{get-insert}
use rustmote.RegistryClient.Cache.{
  TagsEntry, DigestEntry, CacheStore, digest_key, is_fresh, tag_list_if_fresh, digest_if_fresh,
  put_tag_list, put_digest,
}
use rustmote.RegistryClient.Cache.Keys.{digest_key_injective}
use rustmote.RegistryClient.Client.Outside.{Hoare-outside}
use rustmote.RegistryClient.Client.Lookup.{
  list_tags-hit, list_tags-miss, resolve_digest-hit, resolve_digest-miss,
}
use rustmote.RegistryClient.Client.{
  Hub, World, State, cache_read_tags, cache_read_digest, flush, put, cache_write_tags,
  cache_write_digest, fetch_tags, fetch_digest, list_tags, resolve_digest,
}

-- What the registry has told at which time: `tags` and `digest` hold at least of what the transport
-- answers.
pub record Told (H : Hub) : Type 1 where
  pub Tags : Text → List Text → DateTime → Type 0
  pub Digest : (repo tag digest : Text) → DateTime → Type 0
  pub tags :
      (repo : Text) (answer : List Text) (w w' : World H)
      → H.list_tags repo w ≡ (ok answer, w')
      → Tags repo answer (H.now w)
  pub digest :
      (repo tag answer : Text) (w w' : World H)
      → H.resolve_digest repo tag w ≡ (ok answer, w')
      → Digest repo tag answer (H.now w)

module _ (H : Hub) (told : Told H) where
  -- The entries of the cache were told at their times, those of digests for the repositories
  -- without a colon.
  pub record IsHonest (c : CacheStore) : Type 0 where
    pub tags :
        (repo : Text) (e : TagsEntry)
        → Dict.get c.tags repo ≡ some e
        → told.Tags repo e.tags e.cached_at
    pub digests :
        (repo tag : Text) (e : DigestEntry)
        → contains repo b':' ≡ false
        → Dict.get c.digests (digest_key repo tag) ≡ some e
        → told.Digest repo tag e.digest e.cached_at

  put_tag_list-IsHonest :
      (repo : Text) (answer : List Text) (at : DateTime) (c : CacheStore)
      → told.Tags repo answer at
      → IsHonest c
      → IsHonest (put_tag_list repo answer at c)
  unfolding put_tag_list
  put_tag_list-IsHonest repo answer at c heard honest = record {
    tags = λ repo' e found.
        let entry : TagsEntry = record { cached_at = at; tags = answer } in
        let looked = sym (get-insert c.tags repo repo' entry) ∙ found in
        elim (Bool-cases (text_eq repo repo')) [
          | inl same ↦
              let is_entry : some entry ≡ some e = rw same at looked in
              let this : entry ≡ e = cc in
              let here : repo ≡ repo' = (text_eq_iff repo repo').0 same in
              subst (λ r. told.Tags r e.tags e.cached_at) here
                (subst (λ (f : TagsEntry). told.Tags repo f.tags f.cached_at) this heard)
          | inr other ↦ honest.tags repo' e (rw other at looked)
        ];
    digests = honest.digests;
  }

  put_digest-IsHonest :
      (repo tag answer : Text) (at : DateTime) (c : CacheStore)
      → contains repo b':' ≡ false
      → told.Digest repo tag answer at
      → IsHonest c
      → IsHonest (put_digest repo tag answer at c)
  unfolding put_digest
  put_digest-IsHonest repo tag answer at c no_colon heard honest = record {
    tags = honest.tags;
    digests = λ repo' tag' e no_colon' found.
        let entry : DigestEntry = record { cached_at = at; digest = answer } in
        let key = digest_key repo tag in
        let key' = digest_key repo' tag' in
        let looked = sym (get-insert c.digests key key' entry) ∙ found in
        elim (Bool-cases (text_eq key key')) [
          | inl same ↦
              let is_entry : some entry ≡ some e = rw same at looked in
              let this : entry ≡ e = cc in
              let (here, there) =
                digest_key_injective repo repo' tag tag' no_colon no_colon'
                  ((text_eq_iff key key').0 same) in
              subst (λ r. told.Digest r tag' e.digest e.cached_at) here
                (subst (λ t. told.Digest repo t e.digest e.cached_at) there
                  (subst (λ (f : DigestEntry). told.Digest repo tag f.digest f.cached_at) this
                    heard))
          | inr other ↦ honest.digests repo' tag' e no_colon' (rw other at looked)
        ];
  }

-- What a lookup serves: an entry that is there and fresh.
served_entry :
    {E A : Type 0} (fresh : E → Bool) (part : E → A) (o : Option E) (a : A)
    → (elim o [ none ↦ none | some e ↦ if fresh e then some (part e) else none ]) ≡ some a
    → (e : E) × (o ≡ some e) × (fresh e ≡ true) × (part e ≡ a)
served_entry fresh part none a served = ground arith
served_entry fresh part (some e) a served = elim (Bool-cases (fresh e)) [
  | inl good ↦ let this : some (part e) ≡ some a = rw good at served in (e, refl, good, cc)
  | inr stale ↦ let this : none ≡ some a = rw stale at served in ground arith
]

answered_ok :
    {W A : Type 0} {a b : A} {w w' : W}
    → ◌≡◌ {A = Result A × W} (ok a, w) (ok b, w')
    → (a ≡ b) × (w ≡ w')
answered_ok same = (cc, cc)

module _ (H : Hub) (told : Told H) where
  abbrev HasHonest : State H → Type 0
  HasHonest s = IsHonest H told s.client.cache

  Hoare-flush :
      {C : Type 0} → Hoare (λ s. C × HasHonest s) (flush H) (λ u s. C × HasHonest s) Anything
  unfolding flush
  Hoare-flush = record { at = λ s both. (Hoare-outside H _ (λ s both u w ran. both)).at s both }

  -- A write to the cache, flushed to its file.
  Hoare-written :
      {A : Type 0} {C : A → Type 0} (change : CacheStore → CacheStore) (a : A)
      → ((c : CacheStore) → C a → IsHonest H told c → IsHonest H told (change c))
      → Hoare
          (λ s. C a × HasHonest s)
          (modify (put H change) >> flush H >> pure a)
          (λ b s. C b × HasHonest s)
          Anything
  unfolding put
  Hoare-written {C = C} change a kept =
      Hoare-bind {M = λ u s. C a × HasHonest s} _ _
        (Hoare-bind {M = λ u s. C a × HasHonest s} _ _
          (Hoare-modify _ (λ s both. (both.0, kept s.client.cache both.0 both.1)))
          (λ u. Hoare-flush))
        (λ u. Hoare-pure a (λ s both. both))

  Hoare-fetch_tags :
      (repo : Text) (s : State H)
      → Hoare
          (λ s'. (s' ≡ s) × HasHonest s')
          (fetch_tags H repo (H.now s.world))
          (λ tags s'. told.Tags repo tags (H.now s.world) × HasHonest s')
          Anything
  unfolding fetch_tags cache_write_tags
  Hoare-fetch_tags repo s =
      Hoare-bind {M = λ tags s'. told.Tags repo tags (H.now s.world) × HasHonest s'} _ _
        (Hoare-outside H _ (λ s' before tags w ran. (
          subst (λ (s' : State H). told.Tags repo tags (H.now s'.world)) before.0
              (told.tags repo tags s'.world w ran),
          before.1,
        )))
        (λ tags.
          Hoare-written {C = λ tags. told.Tags repo tags (H.now s.world)} _ tags
            (put_tag_list-IsHonest H told repo tags (H.now s.world)))

  Hoare-fetch_digest :
      (repo tag : Text) (s : State H)
      → contains repo b':' ≡ false
      → Hoare
          (λ s'. (s' ≡ s) × HasHonest s')
          (fetch_digest H repo tag (H.now s.world))
          (λ digest s'. told.Digest repo tag digest (H.now s.world) × HasHonest s')
          Anything
  unfolding fetch_digest cache_write_digest
  Hoare-fetch_digest repo tag s no_colon =
      Hoare-bind {M = λ digest s'. told.Digest repo tag digest (H.now s.world) × HasHonest s'} _ _
        (Hoare-outside H _ (λ s' before digest w ran. (
          subst (λ (s' : State H). told.Digest repo tag digest (H.now s'.world)) before.0
              (told.digest repo tag digest s'.world w ran),
          before.1,
        )))
        (λ digest.
          Hoare-written {C = λ digest. told.Digest repo tag digest (H.now s.world)} _ digest
            (λ c. put_digest-IsHonest H told repo tag digest (H.now s.world) c no_colon))

  -- An answer was told at a time, which is now or makes it fresh.
  abbrev pub IsCurrent : State H → (DateTime → Type 0) → Type 0
  IsCurrent s Heard =
      (at : DateTime) × Heard at
      × ((at ≡ H.now s.world) ⊎ (is_fresh H.fits at s.client.ttl (H.now s.world) ≡ true))

  tag_list_if_fresh-IsCurrent :
      (repo : Text) (tags : List Text) (s : State H)
      → HasHonest s
      → tag_list_if_fresh H.fits s.client.cache repo s.client.ttl (H.now s.world) ≡ some tags
      → IsCurrent s (λ at. told.Tags repo tags at)
  unfolding tag_list_if_fresh
  tag_list_if_fresh-IsCurrent repo tags s honest served =
      let (e, found, fresh, same) =
        served_entry _ _ (Dict.get s.client.cache.tags repo) tags served in
      (
        e.cached_at,
        subst (λ t. told.Tags repo t e.cached_at) same (honest.tags repo e found),
        inr fresh,
      )

  digest_if_fresh-IsCurrent :
      (repo tag digest : Text) (s : State H)
      → contains repo b':' ≡ false
      → HasHonest s
      → digest_if_fresh H.fits s.client.cache repo tag s.client.ttl (H.now s.world) ≡ some digest
      → IsCurrent s (λ at. told.Digest repo tag digest at)
  unfolding digest_if_fresh
  digest_if_fresh-IsCurrent repo tag digest s no_colon honest served =
      let (e, found, fresh, same) =
        served_entry _ _ (Dict.get s.client.cache.digests (digest_key repo tag)) digest served in
      (
        e.cached_at,
        subst (λ d. told.Digest repo tag d e.cached_at) same
            (honest.digests repo tag e no_colon found),
        inr fresh,
      )

  -- From a cache of which every entry was told by the registry, the tags that are answered were told
  -- by it, now or at a time from which they are fresh, and the cache stays honest.
  pub list_tags-IsCurrent :
      (repo : Text) (tags : List Text) (s s' : State H)
      → IsHonest H told s.client.cache
      → list_tags H repo s ≡ (ok tags, s')
      → IsCurrent s (λ at. told.Tags repo tags at) × IsHonest H told s'.client.cache
  unfolding cache_read_tags
  list_tags-IsCurrent repo tags s s' honest listed =
      elim (Option-cases (cache_read_tags H repo (H.now s.world) s)) [
        | inl missed ↦
            let (heard, after) =
              Hoare_ran (Hoare-fetch_tags repo s) (refl, honest)
                (sym (list_tags-miss H repo s missed) ∙ listed) in
            ((H.now s.world, heard, inl refl), after)
        | inr (cached, served) ↦
            let (same, still) = answered_ok (sym (list_tags-hit H repo cached s served) ∙ listed) in
            (
              tag_list_if_fresh-IsCurrent repo tags s honest (served ∙ ap some same),
              subst (λ (s : State H). IsHonest H told s.client.cache) still honest,
            )
      ]

  -- So was the digest, for a repository without a colon.
  pub resolve_digest-IsCurrent :
      (repo tag digest : Text) (s s' : State H)
      → contains repo b':' ≡ false
      → IsHonest H told s.client.cache
      → resolve_digest H repo tag s ≡ (ok digest, s')
      → IsCurrent s (λ at. told.Digest repo tag digest at) × IsHonest H told s'.client.cache
  unfolding cache_read_digest
  resolve_digest-IsCurrent repo tag digest s s' no_colon honest resolved =
      elim (Option-cases (cache_read_digest H repo tag (H.now s.world) s)) [
        | inl missed ↦
            let (heard, after) =
              Hoare_ran (Hoare-fetch_digest repo tag s no_colon) (refl, honest)
                (sym (resolve_digest-miss H repo tag s missed) ∙ resolved) in
            ((H.now s.world, heard, inl refl), after)
        | inr (cached, served) ↦
            let (same, still) =
              answered_ok (sym (resolve_digest-hit H repo tag cached s served) ∙ resolved) in
            (
              digest_if_fresh-IsCurrent repo tag digest s no_colon honest (served ∙ ap some same),
              subst (λ (s : State H). IsHonest H told s.client.cache) still honest,
            )
      ]
