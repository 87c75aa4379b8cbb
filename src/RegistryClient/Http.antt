-- ===== src/RegistryClient/Http.antt =====
-- crates/rustmote-core/src/registry_client.rs, `HttpTransport`: the two questions to Docker Hub, over the `reqwest` crate as a parameter.
pub mod Digest
use rustmote.Prelude.{
  ℕ, Bool, true, false, ◌==◌, Option, none, some, List, [], ◌∷◌, ◌++◌, ◌⊎◌, inl, inr, if◌then◌else◌,
}
use rustmote.Text.{Text, str, starts_with, trim_end_matches, join}
use rustmote.Error.{Result, ok, err, registry_api}
use rustmote.Effect.{Io, pure, raise, lift, ◌>>=◌, ◌>>◌}

pub data Method : Type 0 where
  get head : Method

pub record Request : Type 0 where
  pub method : Method
  pub url : Text
  pub bearer : Option Text
  pub accept : Option Text

-- A response: whether `StatusCode::is_success` holds of its status, the status as printed, and the
-- `Docker-Content-Digest` header where it is there and readable.
pub record Response : Type 0 where
  pub is_success : Bool
  pub status : Text
  pub digest : Option Text

-- A client of `reqwest`; its errors are texts. The body of a response is read as one of the two
-- structures that the source declares.
pub record Http (World : Type 0) : Type 0 where
  pub send : Request → World → (Text ⊎ Response) × World
  pub json_token : Response → World → (Text ⊎ Text) × World
  pub json_tags : Response → World → (Text ⊎ Option (List Text)) × World

pub record HttpTransport (World : Type 0) : Type 0 where
  pub http : Http World
  pub registry_base : Text
  pub auth_base : Text

-- `{what}: {e}` where a call failed.
unfoldable pub map_err : {A : Type 0} → Text → Text ⊎ A → Result A
map_err what (inl e) = err (registry_api (what ++ str ": " ++ e))
map_err what (inr a) = ok a

abbrev pub default_registry_base : Text
default_registry_base = str "https://registry-1.docker.io"

abbrev pub default_auth_base : Text
default_auth_base = str "https://auth.docker.io"

abbrev pub accepted : Text
accepted = join (str ", ") (
    str "application/vnd.docker.distribution.manifest.v2+json"
    ∷ str "application/vnd.docker.distribution.manifest.list.v2+json"
    ∷ str "application/vnd.oci.image.manifest.v1+json"
    ∷ str "application/vnd.oci.image.index.v1+json"
    ∷ [])

module _ {World : Type 0} where
  -- `built` is what the builder of the client answers.
  unfoldable pub with_endpoints :
      (built : Text ⊎ Http World) → (registry auth : Text) → Result (HttpTransport World)
  with_endpoints (inl e) registry auth = err (registry_api (str "building http client: " ++ e))
  with_endpoints (inr http) registry auth = ok (record {
    http = http;
    registry_base = trim_end_matches (λ c. c == b'/') registry;
    auth_base = trim_end_matches (λ c. c == b'/') auth;
  })

  -- `new`.
  unfoldable pub new : (built : Text ⊎ Http World) → Result (HttpTransport World)
  new built = with_endpoints built default_registry_base default_auth_base

  unfoldable pub call : {A : Type 0} → Text → (World → (Text ⊎ A) × World) → Io World A
  call what m w = let (r, w') = m w in (map_err what r, w')

  -- A status that is no success ends the call.
  unfoldable pub successful : Text → Response → Io World (Unit {0})
  successful what resp =
      if resp.is_success
      then pure tt
      else raise (registry_api (what ++ str " returned " ++ resp.status))

module _ {World : Type 0} (T : HttpTransport World) where
  open T use {http}

  unfoldable pub fetch_token : Text → Io World Text
  fetch_token repo = do
    resp ← call (str "token fetch") (
        http.send (record {
          method = get;
          url =
              T.auth_base
              ++ str "/token?service=registry.docker.io&scope=repository:"
              ++ repo
              ++ str ":pull";
          bearer = none;
          accept = none;
        }))
    successful (str "token fetch") resp
    call (str "decoding token body") (http.json_token resp)

  -- `#[serde(default)]`
  or_default : Option (List Text) → List Text
  or_default none = []
  or_default (some tags) = tags

  unfoldable pub list_tags : Text → Io World (List Text)
  unfolding or_default
  list_tags repo = do
    token ← fetch_token repo
    resp ← call (str "tags/list") (
        http.send (record {
          method = get;
          url = T.registry_base ++ str "/v2/" ++ repo ++ str "/tags/list";
          bearer = some token;
          accept = none;
        }))
    successful (str "tags/list " ++ repo) resp
    parsed ← call (str "decoding tags body") (http.json_tags resp)
    pure (or_default parsed)

  -- The header of a response, where it is a digest.
  unfoldable pub header_digest : Text → Option Text → Result Text
  header_digest what none = err (registry_api (what ++ str " missing Docker-Content-Digest header"))
  header_digest what (some digest) =
      if starts_with digest (str "sha256:")
      then ok digest
      else err (registry_api (str "manifest digest '" ++ digest ++ str "' is not sha256-prefixed"))

  unfoldable pub resolve_digest : Text → Text → Io World Text
  resolve_digest repo tag = do
    token ← fetch_token repo
    resp ← call (str "manifest HEAD") (
        http.send (record {
          method = head;
          url = T.registry_base ++ str "/v2/" ++ repo ++ str "/manifests/" ++ tag;
          bearer = some token;
          accept = some accepted;
        }))
    successful (str "manifest HEAD " ++ repo ++ str ":" ++ tag) resp
    lift (header_digest (str "manifest HEAD " ++ repo ++ str ":" ++ tag) resp.digest)
