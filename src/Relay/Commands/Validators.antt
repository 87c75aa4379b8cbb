-- ===== src/Relay/Commands/Validators.antt =====
-- What the validators accept.
use rustmote.Prelude.{
  ◌≤◌, ◌≡◌, ◌↔◌, true, false, ◌||◌, ◌++◌, arith, all, length, ◌==◌, Bool-cases, Option-cases, inl,
  inr,
}
use rustmote.Text.{Text, str, starts_with, strip_prefix}
use rustmote.Text.Laws.{strip_prefix_iff}
use rustmote.Text.Utf8.{IsAsciiTest, byte_len_of_all}
use rustmote.Error.{ok}
use rustmote.Relay.Commands.{
  is_path_char, is_repo_char, is_tag_char, is_digest_char, has_parent_component, first_is,
  validate_remote_path, validate_repo, validate_tag, validate_digest,
}

-- An absolute path of allowed characters with no `..` component.
pub record IsRemotePath (s : Text) : Type 0 where
  pub absolute : starts_with s (str "/") ≡ true
  pub allowed : all is_path_char s ≡ true
  pub no_parent : has_parent_component s ≡ false

-- A path is accepted, and handed on as it is, exactly when it is absolute, has allowed characters
-- only, and no `..` component.
pub validate_remote_path_iff :
    (s t : Text) → (validate_remote_path s ≡ ok t) ↔ (IsRemotePath s × (s ≡ t))
unfolding validate_remote_path
validate_remote_path_iff s t = (
  λ h. (
    record { absolute = ground arith; allowed = ground arith; no_parent = ground arith },
    ground arith,
  ),
  λ h. ground (arith, h.0.absolute, h.0.allowed, h.0.no_parent, h.1),
)

is_tag_char_ascii : IsAsciiTest is_tag_char
is_tag_char_ascii b h = ground arith

is_digest_char_ascii : IsAsciiTest is_digest_char
is_digest_char_ascii b h = ground arith

-- A tag of 1 to 128 characters `[A-Za-z0-9_.-]`, the first no `.` and no `-`.
pub record IsTag (tag : Text) : Type 0 where
  pub nonempty : 1 ≤ length tag
  pub short : length tag ≤ 128
  pub start : first_is (λ c. c == b'.' || c == b'-') tag ≡ false
  pub allowed : all is_tag_char tag ≡ true

-- A tag is accepted, and handed on as it is, exactly when it has 1 to 128 characters of
-- `[A-Za-z0-9_.-]` and begins with none of `.` and `-`.
pub validate_tag_iff : (tag t : Text) → (validate_tag tag ≡ ok t) ↔ (IsTag tag × (tag ≡ t))
unfolding validate_tag
validate_tag_iff tag t = elim (Bool-cases (all is_tag_char tag)) [
  | inl e ↦
      let n = byte_len_of_all is_tag_char is_tag_char_ascii tag e in
      (
        λ h. (
          record {
            nonempty = ground (arith, n);
            short = ground (arith, n);
            start = ground arith;
            allowed = e;
          },
          ground arith,
        ),
        λ h. ground (arith, n, h.0.nonempty, h.0.short, h.0.start, h.1),
      )
  | inr e ↦ (λ h. absurd (ground arith), λ h. absurd (ground (arith, h.0.allowed)))
]

-- `sha256:` and 64 lower-case hexadecimal digits.
pub record IsDigest (digest : Text) : Type 0 where
  pub hex : Text
  pub named : digest ≡ str "sha256:" ++ hex
  pub long : length hex ≡ 64
  pub allowed : all is_digest_char hex ≡ true

-- A digest is accepted, and handed on as it is, exactly when it is `sha256:` followed by 64
-- lower-case hexadecimal digits.
pub validate_digest_iff :
    (digest t : Text) → (validate_digest digest ≡ ok t) ↔ (IsDigest digest × (digest ≡ t))
unfolding validate_digest
validate_digest_iff digest t = elim (Option-cases (strip_prefix digest (str "sha256:"))) [
  | inl e ↦ (
    λ h. absurd (ground arith),
    λ h. absurd (ground (arith, (strip_prefix_iff digest (str "sha256:") h.0.hex).1 h.0.named)),
  )
  | inr (hex, e) ↦ elim (Bool-cases (all is_digest_char hex)) [
    | inl a ↦
        let n = byte_len_of_all is_digest_char is_digest_char_ascii hex a in
        (
          λ h. (
            record {
              hex = hex;
              named = (strip_prefix_iff digest (str "sha256:") hex).0 e;
              long = ground (arith, n);
              allowed = a;
            },
            ground arith,
          ),
          λ h. ground (
            arith,
            n,
            h.1,
            h.0.long,
            (strip_prefix_iff digest (str "sha256:") h.0.hex).1 h.0.named,
          ),
        )
    | inr b ↦ (
      λ h. absurd (ground arith),
      λ h. absurd (
          ground
            (arith, h.0.allowed, (strip_prefix_iff digest (str "sha256:") h.0.hex).1 h.0.named)),
    )
  ]
]

-- What is used of an accepted repository: its characters.
pub allowed_of_validate_repo :
    (repo r : Text) → validate_repo repo ≡ ok r → (all is_repo_char repo ≡ true) × (repo ≡ r)
unfolding validate_repo
allowed_of_validate_repo repo r h = (ground arith, ground arith)
