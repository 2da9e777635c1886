-- ===== src/ApiClient/Http.antt =====
-- What api-client calls of `http`, `url` and `hyperdriver`: their values as records, and their
-- functions as parameters.
use emporium.Prelude.{
  ℕ, ◌≡◌, ◌++◌, String, Bool, Option, List, [], ◌∷◌, Result, ◌==◌, string_eq, if◌then◌else◌, true,
}

pub data Method : Type 0 where
  get put post delete : Method

pub record PathAndQuery : Type 0 where
  pub path : String
  pub query : Option String

-- `http::Uri`, and `http::uri::Parts`, which it is taken apart into
pub record Uri : Type 0 where
  pub scheme : Option String
  pub authority : Option String
  pub path_and_query : Option PathAndQuery

-- `http::HeaderMap`, by its values for each name
pub record HeaderMap (H : Type 0) : Type 0 where
  pub empty : H
  pub get_all : String → H → List String
  pub contains_key : String → H → Bool
  pub append : String → String → H → H
  pub insert : String → String → H → H

-- what its documentation says
pub record IsHeaderMap {H : Type 0} (m : HeaderMap H) : Type 0 where
  pub get_all-empty : (k : String) → m.get_all k m.empty ≡ []
  pub contains_key_lem :
      (k : String) (h : H)
      → m.contains_key k h ≡ elim (m.get_all k h) [ [] ↦ Bool.false | _ ∷ _ ↦ true ]
  pub get_all-append :
      (k j v : String) (h : H)
      → m.get_all j (m.append k v h) ≡ (if k == j then m.get_all j h ++ (v ∷ []) else m.get_all j h)
  pub get_all-insert :
      (k j v : String) (h : H)
      → m.get_all j (m.insert k v h) ≡ (if k == j then v ∷ [] else m.get_all j h)

-- `HeaderMap`, `HeaderValue::try_from`, and the parsers of URIs
pub record Http (H : Type 0) : Type 0 where
  pub headers : HeaderMap H
  pub is_header_name : String → Bool
  pub is_header_value : String → Bool
  pub parse_path_and_query : String → Option PathAndQuery
  -- whether `Uri::from_parts` takes the parts
  pub are_parts : Uri → Bool

pub record Request (H B : Type 0) : Type 0 where
  pub method : Method
  pub uri : Uri
  pub headers : H
  pub body : B

-- `http::request::Parts`
pub record Parts (H : Type 0) : Type 0 where
  pub method : Method
  pub uri : Uri
  pub headers : H

-- `http::response::Parts`
pub record ResponseParts (H : Type 0) : Type 0 where
  pub status : ℕ
  pub headers : H

-- `http::Response<Body>`; a body is what collecting it gives
pub record HttpResponse (H : Type 0) : Type 0 where
  pub parts : ResponseParts H
  pub body : Result (List ℕ) String

-- `hyperdriver::client::Error`
pub data ClientError : Type 0 where
  request_timeout : ClientError
  other : String → ClientError
