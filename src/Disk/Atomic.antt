-- ===== src/Disk/Atomic.antt =====
-- A file that is replaced holds its old content or the new one, whatever fails.
use rustmote.Prelude.{◌≡◌, ◌≢◌, sym, ap, ◌∙◌, Option, none, some, ◌⊎◌, inl, inr}
use rustmote.Text.{Text, str}
use rustmote.Error.{IoError, not_found, Result, ok}
use rustmote.Effect.Keeps.{Keeps, Keeps-bind, Keeps-pure}
use rustmote.Effect.Hoare.{
  Anything, Hoare, Hoare-bind, Hoare-weaken, Hoare-Keeps, Hoare-both, Hoare-at_hand, Hoare-fact,
  Outcome,
}
use rustmote.Disk.{Disk, Format, parse, load_from, make_parent, replace, save_beside}

abbrev pub contents : Option Text → IoError ⊎ Text
contents none = inl not_found
contents (some raw) = inr raw

-- The files of a disk. A call may fail at any point. A write that fails leaves any content in the
-- file it writes, and a rename that fails has renamed nothing.
pub record IsDisk (D : Disk) : Type 0 where
  pub file : Disk.World D → Text → Option Text
  pub read_is :
      (path : Text) (w : Disk.World D) → D.read_to_string path w ≡ (contents (file w path), w)
  pub create_dir_all_keeps :
      (dir path : Text) (f : Option Text) → Keeps (λ w. file w path ≡ f) (D.create_dir_all dir)
  pub write_keeps :
      (tmp content path : Text) (f : Option Text)
      → tmp ≢ path
      → Keeps (λ w. file w path ≡ f) (D.write tmp content)
  pub write_fills :
      (tmp content : Text)
      → Hoare (λ w. Unit {0}) (D.write tmp content) (λ a w. file w tmp ≡ some content) Anything
  pub rename_keeps :
      (old new path : Text) (f : Option Text)
      → old ≢ path
      → new ≢ path
      → Keeps (λ w. file w path ≡ f) (D.rename old new)
  pub rename_moves :
      (old new : Text) (f g : Option Text)
      → Hoare
          (λ w. (file w old ≡ f) × (file w new ≡ g))
          (D.rename old new)
          (λ a w. file w new ≡ f)
          (λ e w. file w new ≡ g)

-- A value that is written is read back as the same value, up to what the format forgets.
pub record IsFormat {A : Type 0} (Same : A → A → Type 0) (F : Format A) : Type 0 where
  pub back :
      (a : A) (raw : Text) → F.to_toml a ≡ ok raw → (b : A) × (F.from_toml raw ≡ inr b) × Same a b

module _ (D : Disk) (disk : IsDisk D) where
  pub Keeps-make_parent :
      (path : Text) (f : Option Text) (dir : Option Text)
      → Keeps (λ w. disk.file w path ≡ f) (make_parent D dir)
  unfolding make_parent
  Keeps-make_parent path f none = Keeps-pure tt
  Keeps-make_parent path f (some dir) = disk.create_dir_all_keeps dir path f

  -- The file at the path has the new content, or the replacement has failed and it is as before.
  pub Hoare-replace :
      (tmp path content : Text) (before : Option Text)
      → tmp ≢ path
      → Hoare
          (λ w. disk.file w path ≡ before)
          (replace D tmp path content)
          (λ a w. disk.file w path ≡ some content)
          (λ e w. disk.file w path ≡ before)
  unfolding replace
  Hoare-replace tmp path content before apart =
      Hoare-bind _ _
        (Hoare-weaken _
          (Hoare-both _ (disk.write_fills tmp content)
            (Hoare-Keeps _ (disk.write_keeps tmp content path before apart)))
          (λ w same. (tt, same)) (λ a w both. both) (λ e w both. both.1))
        (λ written. disk.rename_moves tmp path (some content) before)

  -- No other file changes.
  pub Keeps-replace :
      (tmp path content other : Text) (f : Option Text)
      → tmp ≢ other
      → path ≢ other
      → Keeps (λ w. disk.file w other ≡ f) (replace D tmp path content)
  unfolding replace
  Keeps-replace tmp path content other f apart apart' =
      Keeps-bind _ _ (disk.write_keeps tmp content other f apart)
        (λ written. disk.rename_keeps tmp path other f apart apart')

module _ (D : Disk) (disk : IsDisk D) {A : Type 0} {Same : A → A → Type 0} (F : Format A)
    (format : IsFormat Same F) (default : A) (path : Text) where
  -- The next load gives the value that was saved.
  abbrev pub Loads : A → Disk.World D → Type 0
  Loads a w = (b : A) × (load_from D F default path w ≡ (ok b, w)) × Same a b

  -- What a save promises of its outcome, from a disk on which the file is `before`.
  abbrev pub Saves : A → Option Text → Result (Unit {0}) × Disk.World D → Type 0
  Saves a before (r, w) = Outcome (λ u w. Loads a w) (λ e w. disk.file w path ≡ before) r w

  Loads-of :
      (a : A) (raw : Text) (w : Disk.World D)
      → F.to_toml a ≡ ok raw
      → disk.file w path ≡ some raw
      → Loads a w
  unfolding load_from parse
  Loads-of a raw w serialized full =
      let (b, parsed, same) = format.back a raw serialized in
      let found : D.read_to_string path w ≡ (inr raw, w) = disk.read_is path w ∙ rw full in
      (b, rw (load_from, found, parse, parsed, found), same)

  pub Hoare-replaced :
      (tmp raw : Text) (a : A) (before : Option Text)
      → tmp ≢ path
      → F.to_toml a ≡ ok raw
      → Hoare
          (λ w. disk.file w path ≡ before)
          (replace D tmp path raw)
          (λ u w. Loads a w)
          (λ e w. disk.file w path ≡ before)
  Hoare-replaced tmp raw a before apart serialized =
      Hoare-weaken _ (Hoare-replace D disk tmp path raw before apart) (λ w same. same)
        (λ u w full. Loads-of a raw w serialized full) (λ e w same. same)

  -- A save beside the file that succeeds is read back by the next load; one that fails, at whatever
  -- step, has left the file as it was.
  pub Hoare-save_beside :
      (a : A) (before : Option Text)
      → D.with_extension path (str "toml.tmp") ≢ path
      → Hoare
          (λ w. disk.file w path ≡ before)
          (save_beside D F a path)
          (λ u w. Loads a w)
          (λ e w. disk.file w path ≡ before)
  unfolding save_beside
  Hoare-save_beside a before apart =
      Hoare-bind _ _ (Hoare-Keeps _ (Keeps-make_parent D disk path before (D.parent path))) (λ made.
        Hoare-bind {M = λ raw w. (F.to_toml a ≡ ok raw) × (disk.file w path ≡ before)} _ _
          (Hoare-at_hand _ (λ e w same. same))
          (λ raw. Hoare-fact _ (λ serialized. Hoare-replaced _ raw a before apart serialized)))

module _ (D : Disk) (disk : IsDisk D) {A : Type 0} (F : Format A) (default : A) (path : Text) where
  -- A load is a function of the content of the file.
  abbrev loaded : Option Text → Result A
  loaded none = ok default
  loaded (some raw) = parse D F path raw

  load_from-loaded :
      (w : Disk.World D) → load_from D F default path w ≡ (loaded (disk.file w path), w)
  unfolding load_from
  load_from-loaded w = by_content (disk.file w path) (disk.read_is path w)
    where
      by_content :
          (f : Option Text)
          → D.read_to_string path w ≡ (contents f, w)
          → load_from D F default path w ≡ (loaded f, w)
      by_content none found = rw (load_from, found, found)
      by_content (some raw) found = rw (load_from, found, found)

  -- Where the file is the same, so is what is loaded, and loading changes nothing.
  pub load_from_same :
      (w v : Disk.World D) (a : A)
      → load_from D F default path w ≡ (ok a, v)
      → (v ≡ w)
        × ((w' : Disk.World D)
            → disk.file w' path ≡ disk.file w path
            → load_from D F default path w' ≡ (ok a, w'))
  load_from_same w v a given =
      let both : ◌≡◌ {A = Result A × Disk.World D} (loaded (disk.file w path), w) (ok a, v) =
        sym (load_from-loaded w) ∙ given in
      (
        ap (λ x. x.1) (sym both),
        λ w' same.
            load_from-loaded w'
            ∙ ap (λ f. (loaded f, w')) same
            ∙ ap (λ (x : Result A × Disk.World D). (x.0, w')) both,
      )
