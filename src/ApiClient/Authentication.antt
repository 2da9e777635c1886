-- ===== src/ApiClient/Authentication.antt =====
-- api-client/src/authentication.rs: what puts the `Authorization` header on a request. A panic is
-- `none`, and a panic of the service that holds the authentication is a fault.
use emporium.Prelude.{String, Option, none, some, if◌then◌else◌}
use emporium.Prelude.Actions.{Action, unwrap, ◌>>=◌}
use emporium.Std.Text.{◌<>◌}
use emporium.Secret.{Secret, bearer, header_value}
use emporium.ApiClient.Http.{Http, Request, HttpResponse, ClientError}

abbrev pub authorization : String
authorization = "authorization"

-- The trait `Authentication`, for requests with a body of type `B`
pub record Authentication (A H B : Type 0) : Type 0 where
  pub authenticate : A → Request H B → Option (Request H B)

pub record BearerAuth : Type 0 where
  pub token : Secret

pub record BasicAuth : Type 0 where
  pub username : String
  pub password : Option Secret

-- `:` and the password, where there is one
unfoldable pub credentials : String → Option String → String
credentials username none = username <> ":"
credentials username (some password) = username <> ":" <> password

unfoldable pub revealed : Option Secret → Option String
revealed none = none
revealed (some s) = some s.revealed

module _ {H : Type 0} (http : Http H) where
  -- `basic_auth`, with the encoder of `base64`
  unfoldable pub basic_auth : (String → String) → String → Option String → Option String
  unfolding credentials header_value
  basic_auth base64 username password =
      header_value http.is_header_value ("Basic " <> base64 (credentials username password))

  -- `BearerAuth::header_value`
  unfoldable pub bearer_value : BearerAuth → Option String
  unfolding bearer
  bearer_value auth = bearer http.is_header_value auth.token

  -- a value of the header is appended, unless making it panicked
  unfoldable pub append_authorization :
      {B : Type 0} → Option String → Request H B → Option (Request H B)
  append_authorization none req = none
  append_authorization (some value) req =
      some (record req { headers = http.headers.append authorization value req.headers })

  -- `Authentication for BearerAuth`
  unfoldable pub authenticate_bearer :
      {B : Type 0} → BearerAuth → Request H B → Option (Request H B)
  unfolding bearer_value append_authorization
  authenticate_bearer auth req =
      if http.headers.contains_key authorization req.headers
      then some req
      else append_authorization (bearer_value auth) req

  -- `Authentication for BasicAuth`
  unfoldable pub authenticate_basic :
      {B : Type 0} → (String → String) → BasicAuth → Request H B → Option (Request H B)
  unfolding basic_auth append_authorization revealed
  authenticate_basic base64 auth req =
      if http.headers.contains_key authorization req.headers
      then some req
      else append_authorization (basic_auth base64 auth.username (revealed auth.password)) req

-- `Authentication for ()`
unfoldable pub authenticate_none : {H B : Type 0} → Unit {0} → Request H B → Option (Request H B)
authenticate_none auth req = some req

-- `AuthenticationService::call`
unfoldable pub call :
    {A H B S : Type 0}
    → Authentication A H B
    → (Request H B → Action S (HttpResponse H) ClientError)
    → A
    → Request H B
    → Action S (HttpResponse H) ClientError
call scheme inner auth req = unwrap (scheme.authenticate auth req) >>= inner
