-- ===== src/Relay/Backups/Retention.antt =====
-- Which backups are deleted: the listing is put in order newest first, and a backup that goes is
-- never newer than one that stays.
use rustmote.Prelude.{
  ℕ, suc, ◌≡◌, true, false, List, [], ◌∷◌, ltb, arith, All, ◌≤◌, ◌<◌, Bool-cases, inl, inr,
}
use rustmote.Prelude.Int.{ℤ, ltb_ℤ, ◌≤ℤ◌}
use rustmote.Relay.Backups.{Entry, insert_entry, sort_entries, is_doomed}

abbrev pub IsNewestFirst : List Entry → Type 0
IsNewestFirst [] = Unit
IsNewestFirst (e ∷ es) = All (λ f. f.0 ≤ℤ e.0) es × IsNewestFirst es

-- The entry at a position.
pub data At : ℕ → Entry → List Entry → Type 0 where
  here : {e : Entry} {es : List Entry} → At 0 e (e ∷ es)
  there : {i : ℕ} {e f : Entry} {es : List Entry} → At i e es → At (suc i) e (f ∷ es)

≤ℤ_trans : (a b c : ℤ) → a ≤ℤ b → b ≤ℤ c → a ≤ℤ c
≤ℤ_trans a b c h k = omega arith

ltb_ℤ-≤ : (a b : ℤ) → ltb_ℤ a b ≡ true → a ≤ℤ b
ltb_ℤ-≤ a b h = ground arith

ltb_ℤ-false : (a b : ℤ) → ltb_ℤ a b ≡ false → b ≤ℤ a
ltb_ℤ-false a b h = ground arith

All-trans : (a b : ℤ) (es : List Entry) → a ≤ℤ b → All (λ f. f.0 ≤ℤ a) es → All (λ f. f.0 ≤ℤ b) es
All-trans a b [] h k = tt
All-trans a b (e ∷ es) h k = (≤ℤ_trans e.0 a b k.0 h, All-trans a b es h k.1)

All-insert_entry :
    (b : ℤ) (e : Entry) (es : List Entry)
    → e.0 ≤ℤ b
    → All (λ f. f.0 ≤ℤ b) es
    → All (λ f. f.0 ≤ℤ b) (insert_entry e es)
unfolding insert_entry
All-insert_entry b e [] h k = (h, tt)
All-insert_entry b e (f ∷ fs) h k = elim (Bool-cases (ltb_ℤ e.0 f.0)) [
  | inl y ↦ rw y (k.0, All-insert_entry b e fs h k.1)
  | inr n ↦ rw n (h, k)
]

insert_entry-IsNewestFirst :
    (e : Entry) (es : List Entry) → IsNewestFirst es → IsNewestFirst (insert_entry e es)
unfolding insert_entry
insert_entry-IsNewestFirst e [] h = (tt, tt)
insert_entry-IsNewestFirst e (f ∷ fs) h = elim (Bool-cases (ltb_ℤ e.0 f.0)) [
  | inl y ↦
      rw y (All-insert_entry f.0 e fs (ltb_ℤ-≤ e.0 f.0 y) h.0, insert_entry-IsNewestFirst e fs h.1)
  | inr n ↦
      let below : f.0 ≤ℤ e.0 = ltb_ℤ-false e.0 f.0 n in
      rw n ((below, All-trans f.0 e.0 fs below h.0), h)
]

-- The listing is put in order newest first.
pub sort_entries-IsNewestFirst : (es : List Entry) → IsNewestFirst (sort_entries es)
unfolding sort_entries
sort_entries-IsNewestFirst [] = tt
sort_entries-IsNewestFirst (e ∷ es) =
    insert_entry-IsNewestFirst e (sort_entries es) (sort_entries-IsNewestFirst es)

All_at :
    (b : ℤ) (es : List Entry) {i : ℕ} {e : Entry} → All (λ f. f.0 ≤ℤ b) es → At i e es → e.0 ≤ℤ b
All_at b [] h at = elim at [ ]
All_at b (f ∷ fs) h here = h.0
All_at b (f ∷ fs) h (there at) = All_at b fs h.1 at

below_at :
    (es : List Entry) {i j : ℕ} {e f : Entry}
    → IsNewestFirst es
    → At i e es
    → At j f es
    → i < j
    → f.0 ≤ℤ e.0
below_at [] h at_e at_f lt = elim at_e [ ]
below_at (g ∷ es) h here here lt = absurd (omega arith)
below_at (g ∷ es) h here (there at_f) lt = All_at g.0 es h.0 at_f
below_at (g ∷ es) h (there at_e) here lt = absurd (omega arith)
below_at (g ∷ es) h (there at_e) (there at_f) lt = below_at es h.1 at_e at_f (omega arith)

-- In the ordered listing, a backup that the loop deletes is not newer than any backup that it
-- keeps, and it is not one of the first three.
pub doomed_below_kept :
    (cutoff : ℤ) (es : List Entry) {i j : ℕ} {e f : Entry}
    → At i e (sort_entries es)
    → At j f (sort_entries es)
    → is_doomed cutoff i e ≡ false
    → is_doomed cutoff j f ≡ true
    → (f.0 ≤ℤ e.0) × (3 ≤ j)
doomed_below_kept cutoff es {i} {j} {e} {f} at_e at_f kept doomed = elim (Bool-cases (ltb i 3)) [
  | inl early ↦ (
    below_at (sort_entries es) (sort_entries-IsNewestFirst es) at_e at_f (ground arith),
    ground arith,
  )
  | inr late ↦
      let above : cutoff ≤ℤ e.0 = ground arith in
      let below : f.0 ≤ℤ cutoff = ground arith in
      (≤ℤ_trans f.0 cutoff e.0 below above, ground arith)
]
