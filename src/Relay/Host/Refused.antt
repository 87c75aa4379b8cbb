-- ===== src/Relay/Host/Refused.antt =====
-- No refusal of an argument, and no failure of a single command, is the failure of the health check.
use rustmote.Prelude.{ℕ, Bool, true, false, List, [], ◌∷◌, ◌++◌, arith, any, if◌then◌else◌}
use rustmote.Text.{Text, str}
use rustmote.Error
use rustmote.Error.{RustmoteError, Result, ok, err}
use rustmote.Effect.Fails.{Refuses, Refuses-ok, Refuses-bind}
use rustmote.Session.Exec.{ExecOutput, ok_for}
use rustmote.Relay.State.{ImagePin}
use rustmote.Relay.Commands.{
  validate_remote_path, validate_repo, validate_tag, validate_digest, test_file_exists, cat_file,
  mkdir_p, copy_file, write_file, compose_up, compose_pull, compose_config, pinned_image_ref,
}
use rustmote.Relay.Compose.{
  Key, key_of, key_eq, replace, search_of, render_from, render_compose_with_pins,
}
use rustmote.Relay.Host.{IsOther}

pub Refuses-path : (path : Text) → Refuses IsOther (validate_remote_path path)
unfolding validate_remote_path
Refuses-path path = record { at = λ e refused same. ground arith }

Refuses-repo : (repo : Text) → Refuses IsOther (validate_repo repo)
unfolding validate_repo
Refuses-repo repo = record { at = λ e refused same. ground arith }

Refuses-tag : (tag : Text) → Refuses IsOther (validate_tag tag)
unfolding validate_tag
Refuses-tag tag = record { at = λ e refused same. ground arith }

Refuses-digest : (digest : Text) → Refuses IsOther (validate_digest digest)
unfolding validate_digest
Refuses-digest digest = record { at = λ e refused same. ground arith }

-- A builder of a command with one path in it.
Refuses-built :
    (path : Text) (f : Text → Text)
    → Refuses IsOther (Error.◌>>=◌ (validate_remote_path path) (λ p. ok (f p)))
Refuses-built path f = Refuses-bind _ _ (Refuses-path path) (λ p. Refuses-ok _)

pub Refuses-test_file : (p : Text) → Refuses IsOther (test_file_exists p)
unfolding test_file_exists
Refuses-test_file p = Refuses-built p _

pub Refuses-cat_file : (p : Text) → Refuses IsOther (cat_file p)
unfolding cat_file
Refuses-cat_file p = Refuses-built p _

pub Refuses-mkdir_p : (p : Text) → Refuses IsOther (mkdir_p p)
unfolding mkdir_p
Refuses-mkdir_p p = Refuses-built p _

pub Refuses-compose_up : (p : Text) → Refuses IsOther (compose_up p)
unfolding compose_up
Refuses-compose_up p = Refuses-built p _

pub Refuses-compose_pull : (p : Text) → Refuses IsOther (compose_pull p)
unfolding compose_pull
Refuses-compose_pull p = Refuses-built p _

pub Refuses-compose_config : (p : Text) → Refuses IsOther (compose_config p)
unfolding compose_config
Refuses-compose_config p = Refuses-built p _

pub Refuses-write_file :
    (encode : List ℕ → Text) (p : Text) (content : List ℕ)
    → Refuses IsOther (write_file encode p content)
unfolding write_file
Refuses-write_file encode p content = Refuses-built p _

pub Refuses-copy_file : (s d : Text) → Refuses IsOther (copy_file s d)
unfolding copy_file
Refuses-copy_file s d = Refuses-bind _ _ (Refuses-path s) (λ p. Refuses-built d _)

Refuses-image_ref : (repo tag digest : Text) → Refuses IsOther (pinned_image_ref repo tag digest)
unfolding pinned_image_ref
Refuses-image_ref repo tag digest = Refuses-bind _ _ (Refuses-repo repo) (λ r.
    Refuses-bind _ _ (Refuses-tag tag)
      (λ t. Refuses-bind _ _ (Refuses-digest digest) (λ d. Refuses-ok _)))

Refuses-if :
    {A : Type 0} (b : Bool) (r s : Result A)
    → Refuses IsOther r
    → Refuses IsOther s
    → Refuses IsOther (if b then r else s)
Refuses-if true r s first second = first
Refuses-if false r s first second = second

Refuses-render_from :
    (pins : List ImagePin) (seen : List Key) (out : Text)
    → Refuses IsOther (render_from seen out pins)
unfolding render_from
Refuses-render_from [] seen out = Refuses-ok out
Refuses-render_from (pin ∷ pins) seen out =
    Refuses-if (any (key_eq (key_of pin)) seen) _ _ (Refuses-render_from pins seen out) (
      Refuses-bind _ _ (Refuses-image_ref pin.repo pin.tag pin.digest) (λ image.
        Refuses-render_from pins (key_of pin ∷ seen)
          (replace out (search_of pin) (str "image: " ++ image))))

pub Refuses-render :
    (template : Text) (pins : List ImagePin)
    → Refuses IsOther (render_compose_with_pins template pins)
unfolding render_compose_with_pins
Refuses-render template pins = Refuses-render_from pins [] template

pub Refuses-ok_for :
    (lossy : List ℕ → Text) (out : ExecOutput) (command : Text)
    → Refuses IsOther (ok_for lossy out command)
unfolding ok_for
Refuses-ok_for lossy out command = record { at = λ e refused same. ground arith }
