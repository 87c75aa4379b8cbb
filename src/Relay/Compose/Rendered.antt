-- ===== src/Relay/Compose/Rendered.antt =====
-- crates/rustmote-core/src/relay_lifecycle/mod.rs, `render_compose_with_pins`: what the rendered compose
-- file is.
use rustmote.Prelude.{
  ℕ, zero, suc, ◌≡◌, refl, sym, ap, ◌∙◌, Bool, true, false, ◌||◌, List, [], ◌∷◌, ◌++◌, append-nil,
  length, drop, ◌-◌, All, arith, Bool-cases, inl, inr,
}
use rustmote.Text.{Text, str, starts_with}
use rustmote.Text.Laws.{text_eq_iff}
use rustmote.Error.{ok}
use rustmote.Relay.State.{ImagePin}
use rustmote.Relay.Commands.{pinned_image_ref}
use rustmote.Relay.Commands.ImageRef.{pinned_image_ref-Parts}
use rustmote.Relay.Compose.{
  replace_from, Key, key_of, key_eq, render_from, render_compose_with_pins,
}

-- `str::contains`, of a text.
unfoldable pub contains_text : Text → Text → Bool
contains_text [] pattern = starts_with [] pattern
contains_text (c ∷ s) pattern = starts_with (c ∷ s) pattern || contains_text s pattern

-- A text in parts, put together with another between them.
abbrev pub joined_with : Text → Text → List Text → Text
joined_with between first [] = first
joined_with between first (next ∷ rest) = first ++ (between ++ joined_with between next rest)

starts_with-split :
    (s pattern : Text) → starts_with s pattern ≡ true → (rest : Text) × (s ≡ pattern ++ rest)
unfolding starts_with
starts_with-split s [] h = (s, refl)
starts_with-split [] (d ∷ pattern) h = absurd (ground arith)
starts_with-split (c ∷ s) (d ∷ pattern) h =
    let (rest, same) = starts_with-split s pattern (ground arith) in (rest, ground (arith, same))

-- What begins a text begins it with more behind it too.
starts_with-longer :
    (s t pattern : Text) → starts_with s pattern ≡ true → starts_with (s ++ t) pattern ≡ true
unfolding starts_with
starts_with-longer s t [] h = refl
starts_with-longer [] t (d ∷ pattern) h = absurd (ground arith)
starts_with-longer (c ∷ s) t (d ∷ pattern) h = ground (arith, starts_with-longer s t pattern)

drop-length : (s t : Text) → drop (length s) (s ++ t) ≡ t
drop-length [] t = refl
drop-length (c ∷ s) t = drop-length s t

joined_with-cons :
    (between first : Text) (others : List Text) (c : ℕ)
    → joined_with between (c ∷ first) others ≡ c ∷ joined_with between first others
joined_with-cons between first [] c = refl
joined_with-cons between first (next ∷ rest) c = refl

joined_with-first :
    (between first : Text) (others : List Text)
    → (rest : Text) × (joined_with between first others ≡ first ++ rest)
joined_with-first between first [] = ([], sym (append-nil first))
joined_with-first between first (next ∷ rest) = (_, refl)

-- None of the parts has the pattern in it.
abbrev pub AreWithout : Text → List Text → Type 0
AreWithout pattern = All (λ part. contains_text part pattern ≡ false)

module _ (d : ℕ) (p new : Text) where
  abbrev pattern : Text
  pattern = d ∷ p

  -- A character that is no part of a match belongs to the first part.
  passed-without :
      (c : ℕ) (s first : Text) (others : List Text)
      → starts_with (c ∷ s) pattern ≡ false
      → s ≡ joined_with pattern first others
      → contains_text first pattern ≡ false
      → contains_text (c ∷ first) pattern ≡ false
  unfolding contains_text
  passed-without c s first others passed same without =
      let (rest, whole) = joined_with-first pattern first others in
      elim (Bool-cases (starts_with (c ∷ first) pattern)) [
        | inl begins ↦
            let longer = starts_with-longer (c ∷ first) rest pattern begins in
            let begins_whole : starts_with (c ∷ s) pattern ≡ true =
              ap (λ t. starts_with (c ∷ t) pattern) (same ∙ whole) ∙ longer in
            absurd cc
        | inr other ↦ rw other without
      ]

  -- `str::replace` puts the new text between the parts of a text that have the pattern between them
  -- and nowhere in them.
  replace_from-parts :
      (skip : ℕ) (s : Text)
      → (first : Text) × (others : List Text) × (drop skip s ≡ joined_with pattern first others)
        × AreWithout pattern (first ∷ others)
        × (replace_from skip pattern new s ≡ joined_with new first others)
  unfolding replace_from contains_text starts_with
  replace_from-parts zero [] = ([], [], refl, (refl, tt), refl)
  replace_from-parts (suc k) [] = ([], [], refl, (refl, tt), refl)
  replace_from-parts (suc k) (c ∷ s) = replace_from-parts k s
  replace_from-parts zero (c ∷ s) = elim (Bool-cases (starts_with (c ∷ s) pattern)) [
    | inl found ↦
        let (first, others, behind, without, replaced) = replace_from-parts (length p) s in
        let (rest, whole) = starts_with-split (c ∷ s) pattern found in
        let tail : s ≡ p ++ rest = ap (λ t. drop 1 t) whole in
        let after : rest ≡ joined_with pattern first others =
          sym (drop-length p rest) ∙ ap (λ t. drop (length p) t) (sym tail) ∙ behind in
        let passed_over : suc (length p) - 1 ≡ length p = omega arith in
        let rendered = ap (λ n. new ++ replace_from n pattern new s) passed_over in
        (
          [],
          first ∷ others,
          whole ∙ ap (λ t. pattern ++ t) after,
          (refl, without),
          rw found (rendered ∙ ap (λ t. new ++ t) replaced),
        )
    | inr passed ↦
        let (first, others, same, without, replaced) = replace_from-parts zero s in
        (
          c ∷ first,
          others,
          ap (λ t. c ∷ t) same ∙ sym (joined_with-cons pattern first others c),
          (passed-without c s first others passed same without.0, without.1),
          rw passed (ap (λ t. c ∷ t) replaced ∙ sym (joined_with-cons new first others c)),
        )
  ]

key_eq_of : (k l : Key) → k ≡ l → key_eq k l ≡ true
key_eq_of (r, t, d) (r', t', d') e =
    ground (arith, text_eq_iff r r', text_eq_iff t t', text_eq_iff d d')

abbrev pub SameImage : ImagePin → List ImagePin → Type 0
SameImage pin = All (λ p. key_of p ≡ key_of pin)

render_from_seen :
    (out : Text) (pin : ImagePin) (pins : List ImagePin)
    → SameImage pin pins
    → render_from (key_of pin ∷ []) out pins ≡ ok out
unfolding render_from
render_from_seen out pin [] h = refl
render_from_seen out pin (p ∷ pins) (e, h) =
    rw (key_eq_of (key_of p) (key_of pin) e) (render_from_seen out pin pins h)

-- How an `image:` line names the image at its tag, and at its tag and digest.
abbrev pub tagged : ImagePin → Text
tagged pin = str "image: " ++ (pin.repo ++ (str ":" ++ pin.tag))

abbrev pub tagged_and_pinned : ImagePin → Text
tagged_and_pinned pin =
    str "image: " ++ (pin.repo ++ (str ":" ++ (pin.tag ++ (str "@" ++ pin.digest))))

-- Where all pins are of one image, which can be written: the template is parts that do not name the
-- image at its tag, with this name between them, and the rendered file is the same parts with the
-- name at tag and digest between them.
pub render_compose-pinned :
    (template : Text) (pin : ImagePin) (pins : List ImagePin) (image : Text)
    → pinned_image_ref pin.repo pin.tag pin.digest ≡ ok image
    → SameImage pin pins
    → (first : Text) × (others : List Text) × (template ≡ joined_with (tagged pin) first others)
      × AreWithout (tagged pin) (first ∷ others)
      × (render_compose_with_pins template (pin ∷ pins)
          ≡ ok (joined_with (tagged_and_pinned pin) first others))
unfolding render_compose_with_pins
render_compose-pinned template pin pins image built same =
    let parts = pinned_image_ref-Parts pin.repo pin.tag pin.digest image built in
    let (first, others, together, without, replaced) =
      replace_from-parts _ _ (str "image: " ++ image) 0 template in
    (
      first,
      others,
      together,
      without,
      rw (built) (render_from_seen _ pin pins same)
          ∙ ap (λ t. ok t)
              (replaced ∙ ap (λ i. joined_with (str "image: " ++ i) first others) parts.joined),
    )
