-- ===== src/Tests/Commands.antt =====
-- The commands, paths, tags and image references.
use rustmote.Prelude.{◌≡◌, refl, true, ◌↔◌, List, [], ◌∷◌, ◌++◌, all}
use rustmote.Text.{
  Text, str, starts_with, split, text_eq, encode_utf8, bytes, byte_len, strip_prefix,
}
use rustmote.Error.{ok}
use rustmote.Relay.Commands.{
  validate_remote_path, validate_repo, validate_tag, validate_digest, copy_file, pinned_image_ref,
}
use rustmote.Relay.Commands.Validators.{IsRemotePath}
use rustmote.Relay.Commands.RemotePath.{IsSafePath, accepted_path_iff}
use rustmote.Relay.Commands.Argv.{Request, build, argv, is_plain, argv-build}
use rustmote.Relay.Commands.ImageRef.{pinned_image_ref_injective}
use rustmote.Relay.Paths.Valid.{Layout, Layout-of}
use rustmote.Relay.Semver.{pick_latest_semver}
use rustmote.Relay.Semver.Latest.{IsLatest, pick_latest_semver-IsLatest}
use rustmote.Relay.State.{ImagePin}
use rustmote.Relay.Compose.{render_compose_with_pins}
use rustmote.Relay.Compose.Rendered.{
  joined_with, AreWithout, tagged, tagged_and_pinned, render_compose-pinned,
}

abbrev install : Text
install = str "/opt/rustmote-relay"

install-IsRemotePath : IsRemotePath install
unfolding starts_with split text_eq
install-IsRemotePath = record { absolute = refl; allowed = refl; no_parent = refl }

accepted_path_iff_example :
    (validate_remote_path install ≡ ok install) ↔ (IsSafePath install × (install ≡ install))
accepted_path_iff_example = accepted_path_iff install install

abbrev hex : Text
hex = str "0123456789abcdef0123456789abcdef0123456789abcdef0123456789abcdef"

abbrev digest : Text
digest = str "sha256:" ++ hex

abbrev copy_state : Request
copy_state = Request.copy (str "/opt/r/state.toml") (str "/opt/r/backups/state.toml")

abbrev copy_state_command : Text
copy_state_command = str "cp -a /opt/r/state.toml /opt/r/backups/state.toml"

copy_state-build : build copy_state ≡ ok copy_state_command
unfolding copy_file validate_remote_path starts_with split text_eq
copy_state-build = refl

argv-build_example :
    (split copy_state_command b' ' ≡ argv copy_state) × (all is_plain copy_state_command ≡ true)
argv-build_example = argv-build copy_state copy_state_command copy_state-build

Layout-of_example : Layout install (str "2026-11-27T01-02-03Z")
Layout-of_example = Layout-of install (str "2026-11-27T01-02-03Z") install-IsRemotePath refl

abbrev tags : List Text
tags = str "latest" ∷ str "1.1.9" ∷ str "1.1.11" ∷ []

pick_latest_semver-IsLatest_example : IsLatest tags (pick_latest_semver tags)
pick_latest_semver-IsLatest_example = pick_latest_semver-IsLatest tags

abbrev repo : Text
repo = str "rustdesk/rustdesk-server"

abbrev image : Text
image = repo ++ (b':' ∷ (str "1.1.12" ++ (b'@' ∷ digest)))

image-built : pinned_image_ref repo (str "1.1.12") digest ≡ ok image
unfolding pinned_image_ref validate_repo validate_tag validate_digest byte_len bytes encode_utf8
    strip_prefix split text_eq
image-built = refl

pinned_image_ref_injective_example :
    (repo ≡ repo) × (str "1.1.12" ≡ str "1.1.12") × (digest ≡ digest)
pinned_image_ref_injective_example =
    pinned_image_ref_injective repo repo (str "1.1.12") (str "1.1.12") digest digest image
      image-built image-built

abbrev pin : ImagePin
pin = record {
  service = str "hbbs";
  repo = repo;
  tag = str "1.1.12";
  digest = digest;
  pinned_at = 0;
}

-- Two services of one image.
abbrev new_template : Text
new_template =
    str "hbbs:\n  image: rustdesk/rustdesk-server:1.1.12\n"
    ++ str "hbbr:\n  image: rustdesk/rustdesk-server:1.1.12\n"

render_compose-pinned_example :
    (first : Text) × (others : List Text) × (new_template ≡ joined_with (tagged pin) first others)
    × AreWithout (tagged pin) (first ∷ others)
    × (render_compose_with_pins new_template (pin ∷ pin ∷ [])
        ≡ ok (joined_with (tagged_and_pinned pin) first others))
render_compose-pinned_example =
    render_compose-pinned new_template pin (pin ∷ []) image image-built (refl, tt)
