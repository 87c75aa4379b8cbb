-- ===== src/Relay/Commands/ImageRef.antt =====
-- A pinned image reference determines its parts.
use rustmote.Prelude.{◌≡◌, refl, sym, ◌∙◌, true, ◌∷◌, ◌++◌, all, arith}
use rustmote.Text.{Text}
use rustmote.Text.Split.{contains-false_of_all, separated_left}
use rustmote.Error.{ok, >>=-eq-ok}
use rustmote.Relay.Commands.{
  is_repo_char, is_tag_char, validate_repo, validate_tag, validate_digest, pinned_image_ref,
}
use rustmote.Relay.Commands.Validators.{
  IsTag, IsDigest, validate_tag_iff, validate_digest_iff, allowed_of_validate_repo,
}

-- The parts of a reference that was built.
pub record Parts (repo tag digest image : Text) : Type 0 where
  pub repo_ok : all is_repo_char repo ≡ true
  pub tag_ok : IsTag tag
  pub digest_ok : IsDigest digest
  pub joined : image ≡ repo ++ (b':' ∷ (tag ++ (b'@' ∷ digest)))

pub pinned_image_ref-Parts :
    (repo tag digest image : Text)
    → pinned_image_ref repo tag digest ≡ ok image
    → Parts repo tag digest image
unfolding pinned_image_ref
pinned_image_ref-Parts repo tag digest image h =
    let (r, hr, h1) = >>=-eq-ok (validate_repo repo) _ h in
    let (t, ht, h2) = >>=-eq-ok (validate_tag tag) _ h1 in
    let (d, hd, h3) = >>=-eq-ok (validate_digest digest) _ h2 in
    let (repo_ok, same_r) = allowed_of_validate_repo repo r hr in
    let (tag_ok, same_t) = (validate_tag_iff tag t).0 ht in
    let (digest_ok, same_d) = (validate_digest_iff digest d).0 hd in
    record {
      repo_ok = repo_ok;
      tag_ok = tag_ok;
      digest_ok = digest_ok;
      joined = ground (arith, h3, same_r, same_t, same_d);
    }

-- Two references that were built and read the same have the same repository, tag and digest.
pub pinned_image_ref_injective :
    (repo repo' tag tag' digest digest' image : Text)
    → pinned_image_ref repo tag digest ≡ ok image
    → pinned_image_ref repo' tag' digest' ≡ ok image
    → (repo ≡ repo') × (tag ≡ tag') × (digest ≡ digest')
pinned_image_ref_injective repo repo' tag tag' digest digest' image h h' =
    let p = pinned_image_ref-Parts repo tag digest image h in
    let q = pinned_image_ref-Parts repo' tag' digest' image h' in
    let (same_repo, rest) =
      separated_left repo repo' (tag ++ (b'@' ∷ digest)) (tag' ++ (b'@' ∷ digest')) b':'
        (contains-false_of_all is_repo_char repo b':' refl p.repo_ok)
        (contains-false_of_all is_repo_char repo' b':' refl q.repo_ok) (sym p.joined ∙ q.joined) in
    let (same_tag, same_digest) =
      separated_left tag tag' digest digest' b'@'
        (contains-false_of_all is_tag_char tag b'@' refl p.tag_ok.allowed)
        (contains-false_of_all is_tag_char tag' b'@' refl q.tag_ok.allowed) rest in
    (same_repo, same_tag, same_digest)
