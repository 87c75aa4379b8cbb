-- ===== src/Relay/Compose.antt =====
-- crates/rustmote-core/src/relay_lifecycle/mod.rs, `render_compose_with_pins`, and the `str::replace`
-- that it uses.
pub mod Rendered
use rustmote.Prelude.{
  ℕ, zero, suc, ◌-◌, Bool, true, false, ◌||◌, ◌&&◌, List, [], ◌∷◌, ◌++◌, length, any, if◌then◌else◌,
}
use rustmote.Text.{Text, str, text_eq, starts_with}
use rustmote.Error.{Result, ok, err, ◌>>=◌}
use rustmote.Relay.State.{ImagePin}
use rustmote.Relay.Commands.{pinned_image_ref}

-- `str::replace`, for a pattern that is not empty: matches are found from the left and do not
-- overlap. The number counts the characters of the last match that are still to be passed over.
unfoldable pub replace_from : ℕ → Text → Text → Text → Text
replace_from skip pattern new [] = []
replace_from (suc k) pattern new (c ∷ s) = replace_from k pattern new s
replace_from zero pattern new (c ∷ s) =
    let matched = new ++ replace_from (length pattern - 1) pattern new s in
    let passed = c ∷ replace_from zero pattern new s in
    if starts_with (c ∷ s) pattern then matched else passed

abbrev pub replace : Text → Text → Text → Text
replace s pattern new = replace_from 0 pattern new s

-- The keys of `seen`.
abbrev pub Key : Type 0
Key = Text × Text × Text

abbrev pub key_of : ImagePin → Key
key_of pin = (pin.repo, pin.tag, pin.digest)

abbrev pub key_eq : Key → Key → Bool
key_eq (r, t, d) (r', t', d') = text_eq r r' && text_eq t t' && text_eq d d'

abbrev pub search_of : ImagePin → Text
search_of pin = str "image: " ++ (pin.repo ++ (str ":" ++ pin.tag))

unfoldable pub render_from : List Key → Text → List ImagePin → Result Text
unfolding replace_from
render_from seen out [] = ok out
render_from seen out (pin ∷ pins) =
    let same = render_from seen out pins in
    let rendered = pinned_image_ref pin.repo pin.tag pin.digest >>= λ image.
    render_from (key_of pin ∷ seen) (replace out (search_of pin) (str "image: " ++ image)) pins in
    if any (key_eq (key_of pin)) seen then same else rendered

unfoldable pub render_compose_with_pins : Text → List ImagePin → Result Text
unfolding render_from
render_compose_with_pins template pins = render_from [] template pins
