-- ===== src/ApiClient/Client/Builder.antt =====
-- `RequestBuilder` of api-client/src/request.rs. The builder of `http` is its parts or the first error,
-- which it gives when the request is built.
use emporium.Prelude.{
  ℕ, ◌&&◌, String, Option, none, some, List, [], ◌∷◌, Result, ok, err, if◌then◌else◌,
}
use mathlib.Core.Option.{get_or}
use emporium.Prelude.Actions.{Action, pure, fail, panic, ◌>>=◌}
use emporium.Std.Text.{◌<>◌}
use emporium.Secret.{header_value}
use emporium.ApiClient.Http.{
  Http, Method, Uri, Request, Parts, HttpResponse, ClientError, request_timeout,
}
use emporium.ApiClient.Uri.{append_query}
use emporium.ApiClient.Authentication.{authorization, basic_auth}
use emporium.ApiClient.Response.{Response, Error, new_response, query_serialization, response_body}
use emporium.ApiClient.Client.{ApiClient, join_endpoint, parts}

-- `http::request::Builder`
abbrev pub RequestParts : Type 0 → Type 0
RequestParts H = Result (Parts H) String

pub record RequestBuilder (H B : Type 0) : Type 0 where
  pub req : RequestParts H
  pub body : Option B
  pub timeout : Option ℕ

module _ {H B : Type 0} where
  -- `RequestBuilder::timeout`
  unfoldable pub set_timeout : ℕ → RequestBuilder H B → RequestBuilder H B
  set_timeout timeout b = record b { timeout = some timeout }

  -- `RequestBuilder::body`
  unfoldable pub set_body : B → RequestBuilder H B → RequestBuilder H B
  set_body body b = record b { body = some body }

  -- a request of the parts and a body, or the builder's error
  unfoldable pub with_body : RequestParts H → B → Result (Request H B) String
  with_body (err e) body = err e
  with_body (ok p) body =
      ok (record { method = p.method; uri = p.uri; headers = p.headers; body = body })

  -- `RequestBuilder::build`; a request with no body has the empty one
  unfoldable pub build : B → RequestBuilder H B → Result (Request H B) String
  unfolding with_body
  build empty_body b = with_body b.req (get_or b.body empty_body)

module _ {H : Type 0} (http : Http H) where
  -- a header appended to the parts, or the builder's error
  unfoldable pub add_header : String → String → Parts H → RequestParts H
  add_header key value p =
      if http.is_header_name key && http.is_header_value value
      then ok (record p { headers = http.headers.append key value p.headers })
      else err "invalid header"

  -- `http::request::Builder::header`
  unfoldable pub header_of : String → String → RequestParts H → RequestParts H
  unfolding add_header
  header_of key value (err e) = err e
  header_of key value (ok p) = add_header key value p

  -- `RequestExt::basic_auth` of `http`'s builder
  unfoldable pub builder_basic_auth :
      (String → String) → String → Option String → RequestParts H → Option (RequestParts H)
  unfolding basic_auth header_of
  builder_basic_auth base64 username password p = elim (basic_auth http base64 username password) [
    | none ↦ none
    | some value ↦ some (header_of authorization value p)
  ]

  -- `RequestExt::bearer_auth` of `http`'s builder
  unfoldable pub builder_bearer_auth : String → RequestParts H → Option (RequestParts H)
  unfolding header_value header_of
  builder_bearer_auth token p = elim (header_value http.is_header_value ("Bearer " <> token)) [
    | none ↦ none
    | some value ↦ some (header_of authorization value p)
  ]

  module _ {B : Type 0} where
    -- `RequestBuilder::new`
    unfoldable pub new : Uri → Method → RequestBuilder H B
    new uri method = record {
      req = ok (record { method = method; uri = uri; headers = http.headers.empty });
      body = none;
      timeout = none;
    }

    -- `RequestBuilder::header`
    unfoldable pub header : String → String → RequestBuilder H B → RequestBuilder H B
    unfolding header_of
    header key value b = record b { req = header_of key value b.req }

    -- `RequestBuilder::headers`
    unfoldable pub headers : List (String × String) → RequestBuilder H B → RequestBuilder H B
    unfolding header
    headers [] b = b
    headers ((key, value) ∷ rest) b = headers rest (header key value b)

    -- `RequestBuilder::json`, by the body that the value is serialized to
    unfoldable pub json : Result B String → RequestBuilder H B → Result (RequestBuilder H B) Error
    unfolding header
    json (err e) b = err (response_body e)
    json (ok body) b = ok (record (header "content-type" "application/json" b) { body = some body })

    -- the parts with the query appended to their URI
    unfoldable pub query_of :
        Result String String → Parts H → RequestBuilder H B → Result (RequestBuilder H B) Error
    unfolding append_query
    query_of query p b = elim (append_query http p.uri query) [
      | err e ↦ err (query_serialization e)
      | ok uri ↦ ok (record b { req = ok (record p { uri = uri }) })
    ]

    -- `RequestBuilder::query`; it panics on a builder that has failed
    unfoldable pub query :
        Result String String → RequestBuilder H B → Option (Result (RequestBuilder H B) Error)
    unfolding query_of
    query text b = elim b.req [ err e ↦ none | ok p ↦ some (query_of text p b) ]

-- `ApiClient::get`, `put`, `post` and `delete`
unfoldable pub request_to :
    {A H B : Type 0} → Http H → Method → ApiClient A → String → Option (RequestBuilder H B)
unfolding join_endpoint new
request_to http method client endpoint = elim (join_endpoint http client endpoint) [
  | none ↦ none
  | some uri ↦ some (new http uri method)
]

module _ {H B S : Type 0} (service : Request H B → Action S (HttpResponse H) ClientError)
    (timed : ℕ
      → Action S (HttpResponse H) ClientError
      → Action S (Option (HttpResponse H)) ClientError) where
  -- the response, or the error of a timeout
  unfoldable pub in_time : Option (HttpResponse H) → Action S (HttpResponse H) ClientError
  in_time none = fail request_timeout
  in_time (some response) = pure response

  -- the request sent, with `tokio::time::timeout` where there is one
  unfoldable pub send_within : Option ℕ → Request H B → Action S (HttpResponse H) ClientError
  unfolding in_time
  send_within none req = service req
  send_within (some timeout) req = timed timeout (service req) >>= in_time

  -- `RequestBuilder::send`
  unfoldable pub send : B → RequestBuilder H B → Action S (Response H) ClientError
  unfolding build send_within new_response parts
  send empty_body b = elim (build empty_body b) [
    | err e ↦ panic
    | ok req ↦ do response ← send_within b.timeout req; pure (new_response (parts req) response)
  ]
