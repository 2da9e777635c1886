-- ===== src/B2Client/Errors.antt =====
-- services/b2-client/src/errors.rs, and the errors of application.rs
use emporium.Prelude.{
  ℕ, ◌&&◌, String, Option, none, some, List, Result, ok, err, ◌==◌, string_eq, nat_eq, leb, ltb,
  if◌then◌else◌,
}
use emporium.Prelude.Actions.{Action, pure, fail, unwrap, ◌>>=◌}
use emporium.ApiClient.Response.{Response, Error, is_success, text_of}

pub data B2ErrorCode : Type 0 where
  expired_auth_token bad_request : B2ErrorCode
  other : String → B2ErrorCode

-- `Display for B2ErrorCode`
unfoldable pub code_to_string : B2ErrorCode → String
code_to_string expired_auth_token = "expired_auth_token"
code_to_string bad_request = "bad_request"
code_to_string (other message) = message

-- `From<String> for B2ErrorCode`
unfoldable pub code_from_string : String → B2ErrorCode
code_from_string value =
    if value == "expired_auth_token"
    then expired_auth_token
    else if value == "bad_request"
    then bad_request
    else other value

pub record B2Error : Type 0 where
  pub status : ℕ
  pub code : B2ErrorCode
  pub message : String

pub record RawErrorInfo : Type 0 where
  pub status : ℕ
  pub code : String
  pub message : String

-- `StatusCode::from_u16`
unfoldable pub is_status_code : ℕ → Option ℕ
is_status_code n = if leb 100 n && ltb n 1000 then some n else none

-- `From<RawErrorInfo> for B2Error`, which panics on a number that is no status code
unfoldable pub error_from_raw : RawErrorInfo → Option B2Error
unfolding is_status_code code_from_string
error_from_raw raw = elim (is_status_code raw.status) [
  | none ↦ none
  | some status ↦
      some (record { status = status; code = code_from_string raw.code; message = raw.message })
]

-- `AuthenticationErrorKind`
pub data AuthenticationErrorKind : Type 0 where
  client : Error → AuthenticationErrorKind
  deserialization : String → String → AuthenticationErrorKind
  body : String → AuthenticationErrorKind
  bad_request_error : B2Error → AuthenticationErrorKind
  unauthorized : B2Error → AuthenticationErrorKind
  unauthorized_bucket : String → AuthenticationErrorKind

pub data B2RequestError : Type 0 where
  b2_error : B2Error → B2RequestError
  serde : String → String → B2RequestError
  io : String → B2RequestError
  no_credentials : String → B2RequestError
  body_error : String → B2RequestError
  client_error : Error → B2RequestError
  retries_exhausted : B2RequestError

-- `From<AuthenticationError> for B2RequestError`
unfoldable pub from_authentication : AuthenticationErrorKind → B2RequestError
from_authentication (body error) = body_error error
from_authentication (client error) = client_error error
from_authentication (deserialization error text) = serde error text
from_authentication (bad_request_error error) = b2_error error
from_authentication (unauthorized error) = b2_error error
from_authentication (unauthorized_bucket bucket) = no_credentials bucket

-- `From<B2Error> for AuthenticationErrorKind`, which panics on other status codes
unfoldable pub kind_of_b2 : B2Error → Option AuthenticationErrorKind
kind_of_b2 error =
    if error.status == 400
    then some (bad_request_error error)
    else if error.status == 401
    then some (unauthorized error)
    else none

-- `From<B2RequestError> for AuthenticationErrorKind`
unfoldable pub kind_of_request : B2RequestError → Option AuthenticationErrorKind
unfolding kind_of_b2
kind_of_request (b2_error error) = kind_of_b2 error
kind_of_request (no_credentials bucket) = some (unauthorized_bucket bucket)
kind_of_request _ = none

-- `B2RequestError::b2`; `unwrap_b2` panics where this is `none`
unfoldable pub b2 : B2RequestError → Option B2Error
b2 (b2_error error) = some error
b2 _ = none

-- what reads a response: `String::from_utf8`, and `serde_json::from_str` of an error
pub record Reading : Type 0 where
  pub from_utf8 : List ℕ → Result String String
  pub error_info : String → Result RawErrorInfo String

-- `serde_json::from_str(&text).map_err(..)`
unfoldable pub parse_json :
    {S D : Type 0} → (String → Result D String) → String → Action S D B2RequestError
parse_json from_str text = elim (from_str text) [ ok d ↦ pure d | err e ↦ fail (serde e text) ]

module _ {S : Type 0} (reading : Reading) where
  -- `text().await.map_err(B2RequestError::Body)`
  unfoldable pub response_text : {H : Type 0} → Response H → Action S String B2RequestError
  unfolding text_of
  response_text response = elim (text_of reading.from_utf8 response.body) [
    | ok text ↦ pure text
    | err e ↦ fail (body_error e)
  ]

  -- the error that a text stands for, which always fails
  unfoldable pub fail_with : {A : Type 0} → String → Action S A B2RequestError
  unfolding parse_json error_from_raw
  fail_with text = do
    raw ← parse_json reading.error_info text
    error ← unwrap (error_from_raw raw)
    fail (b2_error error)

  -- `B2ResponseExt::handle_errors`
  unfoldable pub handle_errors : {H : Type 0} → Response H → Action S (Response H) B2RequestError
  unfolding is_success response_text fail_with
  handle_errors response =
      if is_success response.response.status
      then pure response
      else response_text response >>= fail_with

  -- `B2ResponseExt::deserialize`
  unfoldable pub deserialize :
      {H D : Type 0} → (String → Result D String) → Response H → Action S D B2RequestError
  unfolding handle_errors response_text parse_json
  deserialize from_str response = do
    resp ← handle_errors response
    text ← response_text resp
    parse_json from_str text
