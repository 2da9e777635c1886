-- ===== src/ApiClient/Response.antt =====
-- api-client/src/response.rs and api-client/src/error.rs: responses with the request they answer, and
-- what their bodies are read as. A future is its output.
use emporium.Prelude.{ℕ, String, Bool, ◌&&◌, List, Result, ok, err, ◌>>=◌, leb, ltb, if◌then◌else◌}
use emporium.Std.Text.{◌<>◌}
use emporium.ApiClient.Http.{Parts, ResponseParts, HttpResponse, ClientError}
use emporium.ApiClient.Uri.{QueryError}

-- `HttpResponseError`
pub record HttpResponseError : Type 0 where
  pub status : ℕ
  pub message : String

-- `Error`
pub data Error : Type 0 where
  response : HttpResponseError → Error
  response_body : String → Error
  request : ClientError → Error
  request_builder : String → Error
  query_serialization : QueryError → Error

-- `Response`
pub record Response (H : Type 0) : Type 0 where
  pub request : Parts H
  pub response : ResponseParts H
  pub body : Result (List ℕ) String

-- `StatusCode::is_success`
unfoldable pub is_success : ℕ → Bool
is_success status = leb 200 status && ltb status 300

-- the future `Text`, with `String::from_utf8`
unfoldable pub text_of :
    (List ℕ → Result String String) → Result (List ℕ) String → Result String String
text_of from_utf8 body = body >>= from_utf8

-- the future `Json`, with `serde_json::from_slice`
unfoldable pub json_of :
    {D : Type 0} → (List ℕ → Result D String) → Result (List ℕ) String → Result D String
json_of from_slice body = body >>= from_slice

-- a message for a body that could not be read
unfoldable pub message_of : Result String String → String
message_of (ok text) = text
message_of (err e) = "Failed to read response body: " <> e

module _ {H : Type 0} where
  -- `Response::new`
  unfoldable pub new_response : Parts H → HttpResponse H → Response H
  new_response parts r = record { request = parts; response = r.parts; body = r.body }

  -- `Response::into_parts` and `Response::into_response`
  unfoldable pub into_parts : Response H → Parts H × ResponseParts H × Result (List ℕ) String
  into_parts r = (r.request, r.response, r.body)

  unfoldable pub into_response : Response H → HttpResponse H
  into_response r = record { parts = r.response; body = r.body }

  -- `HttpResponseError::from_response`
  unfoldable pub from_response : (List ℕ → Result String String) → Response H → HttpResponseError
  unfolding text_of message_of
  from_response from_utf8 r = record {
    status = r.response.status;
    message = message_of (text_of from_utf8 r.body);
  }

  -- `Response::error_for_status`
  unfoldable pub error_for_status :
      (List ℕ → Result String String) → Response H → Result (Response H) HttpResponseError
  unfolding is_success from_response
  error_for_status from_utf8 r =
      if is_success r.response.status then ok r else err (from_response from_utf8 r)
