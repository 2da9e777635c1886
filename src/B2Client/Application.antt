-- ===== src/B2Client/Application.antt =====
-- services/b2-client/src/application.rs: keys, authorizations and the requests they make. A panic is
-- `none` or a fault.
pub mod Authorized
use emporium.Prelude.{ℕ, String, Option, none, some, List, Result, ok, err, if◌then◌else◌, map_err}
use emporium.Prelude.Actions.{Action, pure, fail, panic, unwrap, map_fail, lift, ◌>>=◌}
use emporium.Std.Text.{◌<>◌}
use emporium.Secret.{Secret, header_value, from_env}
use emporium.ApiClient.Http.{
  Http, HeaderMap, Method, Uri, Request, Parts, HttpResponse, ClientError,
}
use emporium.ApiClient.Uri.{join}
use emporium.ApiClient.Authentication.{Authentication, authorization}
use emporium.ApiClient.Response.{Error, request, text_of}
use emporium.ApiClient.Client.Builder.{RequestParts, builder_basic_auth, with_body}
use emporium.B2Client.Types.{Body, Posted, empty, json}
use emporium.B2Client.Errors.{AuthenticationErrorKind, client, deserialization, body}

pub record B2ApplicationKey : Type 0 where
  pub key_id : Secret
  pub key : Secret

pub record B2Authorization : Type 0 where
  pub account_id : Secret
  pub authorization_token : Secret
  pub api_url : Uri
  pub download_url : Uri
  pub recommended_part_size : ℕ

-- `B2_APPLICATION_URL`
abbrev pub application_url : Uri
application_url = record {
  scheme = some "https";
  authority = some "api.backblazeb2.com";
  path_and_query = some (record { path = "/b2api/v2/b2_authorize_account"; query = none });
}

-- `B2ApplicationKey::new`, less its warnings
unfoldable pub new_key : Secret → Secret → B2ApplicationKey
new_key key_id key = record { key_id = key_id; key = key }

-- `B2ApplicationKey::from_env`
unfoldable pub key_of : {E : Type 0} → Result Secret E → Result Secret E → Result B2ApplicationKey E
unfolding new_key
key_of (ok key_id) (ok key) = ok (new_key key_id key)
key_of (ok key_id) (err e) = err e
key_of (err e) key = err e

unfoldable pub key_from_env : {E : Type 0} → (String → Result String E) → Result B2ApplicationKey E
unfolding from_env key_of
key_from_env var = key_of (from_env var "B2_KEY_ID") (from_env var "B2_KEY")

module _ {H : Type 0} (http : Http H) where
  -- `B2Authorization::endpoint`
  unfoldable pub endpoint : B2Authorization → String → Option Uri
  unfolding join
  endpoint auth name = join http auth.api_url ("b2api/v2/" <> name)

  -- the header's value in place of all others, unless the token is no value
  unfoldable pub insert_authorization :
      {B : Type 0} → Option String → Request H B → Option (Request H B)
  insert_authorization none req = none
  insert_authorization (some value) req =
      some (record req { headers = http.headers.insert authorization value req.headers })

  -- `B2Authorization::authorize`
  unfoldable pub authorize : {B : Type 0} → B2Authorization → Request H B → Option (Request H B)
  unfolding insert_authorization header_value
  authorize auth req =
      if http.headers.contains_key authorization req.headers
      then some req
      else insert_authorization
          (header_value http.is_header_value auth.authorization_token.revealed) req

  -- `Authentication for B2Authorization`
  unfoldable pub authenticate : {B : Type 0} → B2Authorization → Request H B → Option (Request H B)
  unfolding insert_authorization header_value
  authenticate auth req =
      if http.headers.contains_key authorization req.headers
      then some req
      else insert_authorization
          (header_value http.is_header_value auth.authorization_token.revealed) req

  abbrev pub b2_authentication : {B : Type 0} → Authentication B2Authorization H B
  b2_authentication = record { authenticate = authenticate }

  -- a request to an endpoint, authorized
  unfoldable pub request_at : B2Authorization → Method → Body → Option Uri → Option (Request H Body)
  unfolding authorize
  request_at auth method content none = none
  request_at auth method content (some uri) =
      authorize auth
        (record { method = method; uri = uri; headers = http.headers.empty; body = content })

  -- `B2Authorization::get` and `B2Authorization::post`
  unfoldable pub get : B2Authorization → String → Option (Request H Body)
  unfolding endpoint request_at
  get auth name = request_at auth Method.get empty (endpoint auth name)

  unfoldable pub post : B2Authorization → String → Posted → Option (Request H Body)
  unfolding endpoint request_at
  post auth name value = request_at auth Method.post (json value) (endpoint auth name)

  -- the request of `fetch_authorization`
  unfoldable pub application_request :
      (String → String) → B2ApplicationKey → Option (Request H Body)
  unfolding builder_basic_auth with_body
  application_request base64 k =
      let parts : RequestParts H =
        ok (record { method = Method.get; uri = application_url; headers = http.headers.empty }) in
      elim (builder_basic_auth http base64 k.key_id.revealed (some k.key.revealed) parts) [
        | none ↦ none
        | some built ↦ elim (with_body built empty) [ ok req ↦ some req | err _ ↦ none ]
      ]

-- the authorization in the text of a response, whatever its status
unfoldable pub authorization_of :
    (List ℕ → Result String String)
    → (String → Result B2Authorization String)
    → Result (List ℕ) String
    → Result B2Authorization AuthenticationErrorKind
unfolding text_of
authorization_of from_utf8 from_str content = elim (text_of from_utf8 content) [
  | err e ↦ err (body e)
  | ok text ↦ map_err (λ e. deserialization e text) (from_str text)
]

-- `B2ApplicationKey::fetch_authorization`
unfoldable pub fetch_authorization :
    {H S : Type 0}
    → Http H
    → (String → String)
    → (List ℕ → Result String String)
    → (String → Result B2Authorization String)
    → (Request H Body → Action S (HttpResponse H) ClientError)
    → B2ApplicationKey
    → Action S B2Authorization AuthenticationErrorKind
unfolding application_request authorization_of
fetch_authorization http base64 from_utf8 from_str service key = do
  req ← unwrap (application_request http base64 key)
  resp ← map_fail (λ e. client (request e)) (service req)
  lift (authorization_of from_utf8 from_str resp.body)
