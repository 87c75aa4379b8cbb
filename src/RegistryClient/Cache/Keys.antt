-- ===== src/RegistryClient/Cache/Keys.antt =====
-- The keys of the cached digests.
use rustmote.Prelude.{◌≡◌, false}
use rustmote.Text.{Text}
use rustmote.Text.Split.{contains, separated_left}
use rustmote.RegistryClient.Cache.{digest_key}

-- Where the repositories have no colon, as in the form `namespace/name`, a key stands for one
-- repository and one tag.
pub digest_key_injective :
    (repo repo' tag tag' : Text)
    → contains repo b':' ≡ false
    → contains repo' b':' ≡ false
    → digest_key repo tag ≡ digest_key repo' tag'
    → (repo ≡ repo') × (tag ≡ tag')
unfolding digest_key
digest_key_injective repo repo' tag tag' h h' e = separated_left repo repo' tag tag' b':' h h' e
