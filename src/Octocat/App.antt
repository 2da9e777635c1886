-- ===== src/Octocat/App.antt =====
-- The requests of `GithubApp` and the clients that it makes, in services/octocat/src/lib.rs and
-- services/octocat/src/models/mod.rs. The lock of the token is shared by an application and its
-- clients: it is in the state. The version of HTTP that a request asks for is left out.
use emporium.Prelude.{
  ℕ, String, Bool, Option, none, some, List, Result, ok, err, map_err, ltb, if◌then◌else◌,
}
use emporium.Prelude.Actions.{Action, pure, fail, panic, unwrap, lift, map_fail, ◌>>=◌}
use emporium.Std.Text.{◌<>◌}
use emporium.Std.Num.{to_decimal}
use emporium.Secret.{Secret}
use emporium.ApiClient.Http.{Method, Request, HttpResponse, get, post}
use emporium.ApiClient.Response.{is_success, text_of, json_of}
use emporium.ApiClient.Authentication.{bearer_value, append_authorization}
use emporium.ApiClient.Client.{ApiClient, new_with_inner_service, refresh_auth}
use emporium.ApiClient.Client.Builder.{RequestParts, builder_bearer_auth, with_body}
use emporium.Octocat.Types.{
  Error, request, response, serde, body, ResponseError, Installation, InstallationAccess, Service,
  World,
}
use emporium.Octocat.Token.{authentication_token}

-- `InstallationAccess::is_expired`
unfoldable pub access_is_expired : ℕ → InstallationAccess → Bool
access_is_expired now access = ltb access.expires_at now

-- `GithubClient`; its application is in the state
pub record GithubClient : Type 0 where
  pub client : ApiClient InstallationAccess
  pub id : ℕ

-- `GITHUB_BASE`, `GITHUB_LIST_INSTALLATIONS` and the URLs that are formatted
abbrev pub github_base : String
github_base = "https://api.github.com/"

abbrev pub installations_url : String
installations_url = "https://api.github.com/app/installations"

unfoldable pub access_url : ℕ → String
access_url id = "https://api.github.com/app/installations/" <> to_decimal id <> "/access_tokens"

unfoldable pub repository_url : String → String → String
repository_url user repository =
    "https://api.github.com/repos/" <> user <> "/" <> repository <> "/installation"

-- `unwrap_or_default` of a text
unfoldable pub text_or_default : {E : Type 0} → Result String E → String
text_or_default (ok text) = text
text_or_default (err e) = ""

module _ {R : Type 0} where
  abbrev on_remote : {A E : Type 0} → Action R A E → Action (World R) A E
  on_remote m w = let (r, remote) = m w.remote in (r, record w { remote = remote })

  -- `Result::unwrap`
  unfoldable pub unwrap_ok : {A E : Type 0} → Result A E → Action (World R) A Error
  unwrap_ok (ok a) = pure a
  unwrap_ok (err e) = panic

module _ {H R : Type 0} (env : Service H R) where
  -- `Authentication for InstallationAccess`, which appends a header
  unfoldable pub authenticate_access :
      {B : Type 0} → InstallationAccess → Request H B → Option (Request H B)
  unfolding append_authorization bearer_value
  authenticate_access access req =
      append_authorization env.http (bearer_value env.http (record { token = access.token })) req

  -- the builder of a request, before its headers
  unfoldable pub parts_of : Method → String → RequestParts H
  parts_of method url = elim (env.parse_uri url) [
    | none ↦ err "invalid uri"
    | some uri ↦ ok (record { method = method; uri = uri; headers = env.http.headers.empty })
  ]

  -- a request with the application's token
  unfoldable pub app_request : Method → String → Action (World R) (Request H (Unit {0})) Error
  unfolding authentication_token parts_of builder_bearer_auth with_body
  app_request method url = authentication_token env none >>= λ token.
      unwrap (builder_bearer_auth env.http token.revealed (parts_of method url)) >>= λ parts.
      unwrap_ok (with_body parts tt)

  -- `ResponseError::from_response`
  unfoldable pub from_response : HttpResponse H → ResponseError
  unfolding text_of text_or_default
  from_response r = record {
    status = r.parts.status;
    body = text_or_default (text_of env.from_utf8 r.body);
  }

  -- the response, if it is a success
  unfoldable pub successful : HttpResponse H → Action (World R) (HttpResponse H) Error
  unfolding is_success from_response
  successful r = if is_success r.parts.status then pure r else fail (response (from_response r))

  -- the answer to a request with the application's token
  unfoldable pub ask : Method → String → Action (World R) (HttpResponse H) Error
  unfolding app_request successful
  ask method url = do
    req ← app_request method url
    r ← map_fail request (on_remote (env.send req))
    successful r

  -- `GithubApp::installations`
  unfoldable pub installations : Action (World R) (List Installation) Error
  unfolding ask json_of
  installations = do
    r ← ask get installations_url
    lift (map_err body (json_of env.read_installations r.body))

  -- the text of the answer, read as a value
  unfoldable pub parsed :
      {A : Type 0} → (String → Result A String) → HttpResponse H → Action (World R) A Error
  unfolding text_of
  parsed read r = do
    text ← lift (map_err body (text_of env.from_utf8 r.body))
    lift (map_err serde (read text))

  -- `GithubApp::installation_token`
  unfoldable pub installation_token : ℕ → Action (World R) InstallationAccess Error
  unfolding ask parsed access_url
  installation_token id = ask post (access_url id) >>= parsed env.read_access

  -- `GithubClient::new` and `GithubClient::from_app`
  unfoldable pub from_app : InstallationAccess → ℕ → Action (World R) GithubClient Error
  unfolding new_with_inner_service
  from_app access id = do
    base ← unwrap (env.parse_uri github_base)
    pure (record { client = new_with_inner_service base access; id = id })

  -- `GithubApp::installation_for_repo`
  unfoldable pub installation_for_repo : String → String → Action (World R) GithubClient Error
  unfolding ask parsed installation_token from_app repository_url
  installation_for_repo user repository = do
    found ← ask get (repository_url user repository) >>= parsed env.read_installation
    access ← installation_token found.id
    from_app access found.id

  -- `GithubApp::installation`
  unfoldable pub installation : ℕ → Action (World R) GithubClient Error
  unfolding installation_token from_app
  installation id = do access ← installation_token id; from_app access id

  -- `GithubClient::is_expired` and `GithubClient::token`
  unfoldable pub client_is_expired : R → GithubClient → Bool
  unfolding access_is_expired
  client_is_expired r c = access_is_expired (env.now r) c.client.authentication

  unfoldable pub client_token : GithubClient → Secret
  client_token c = c.client.authentication.token

  -- `GithubClient::refresh`, which gives the client with its new token
  unfoldable pub refresh : GithubClient → Action (World R) GithubClient Error
  unfolding installation_token refresh_auth
  refresh c = do
    access ← installation_token c.id
    pure (record c { client = refresh_auth access c.client })
