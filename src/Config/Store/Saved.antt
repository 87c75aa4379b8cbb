-- ===== src/Config/Store/Saved.antt =====
-- A configuration that is saved.
use rustmote.Prelude.{◌≡◌, ◌≢◌, refl, ap, length, length-append, arith, Option}
use rustmote.Text.{Text, str}
use rustmote.Effect.Hoare.{Hoare, Hoare-bind, Hoare-Keeps, Hoare-at_hand, Hoare-fact}
use rustmote.Disk.{Disk, Format}
use rustmote.Disk.Atomic.{IsDisk, IsFormat, Loads, Saves, Keeps-make_parent, Hoare-replaced}
use rustmote.Config.{Config, default_config}
use rustmote.Config.Store.{tmp_path, save_to}

tmp_path-ne : (path : Text) → tmp_path path ≢ path
unfolding tmp_path
tmp_path-ne path e = omega (arith, length-append path (str ".tmp"), ap length e)

module _ (D : Disk) (disk : IsDisk D) (F : Format Config) (format : IsFormat ◌≡◌ F)
    (path : Text) where
  Hoare-save_to :
      (cfg : Config) (before : Option Text)
      → Hoare
          (λ w. disk.file w path ≡ before)
          (save_to D F cfg path)
          (λ u w. Loads D disk F format default_config path cfg w)
          (λ e w. disk.file w path ≡ before)
  unfolding save_to
  Hoare-save_to cfg before = Hoare-bind _ _ (Hoare-at_hand _ (λ e w same. same)) (λ raw.
      Hoare-fact _ (λ serialized.
        Hoare-bind _ _ (Hoare-Keeps _ (Keeps-make_parent D disk path before (D.parent path)))
          (λ made.
            Hoare-replaced D disk F format default_config path (tmp_path path) raw cfg before
              (tmp_path-ne path) serialized)))

  -- On a disk that keeps what it is given, with a TOML format that reads back what it wrote:
  -- saving a configuration either succeeds, and the next load of the file gives the configuration
  -- back, or fails, at whatever step, and the file is as it was before.
  pub save_to-Saves :
      (cfg : Config) (w : Disk.World D)
      → Saves D disk F format default_config path cfg (disk.file w path) (save_to D F cfg path w)
  save_to-Saves cfg w = (Hoare-save_to cfg (disk.file w path)).at w refl
