-- ===== src/ApiClient/Uri.antt =====
-- The extensions of `Uri` in api-client/src/uri.rs. A panic is `none`.
use emporium.Prelude.{
  String, Bool, not, ◌&&◌, Option, none, some, List, [], ◌∷◌, ◌++◌, Result, ok, err, ◌==◌,
  string_eq, filterb, if◌then◌else◌,
}
use emporium.Std.Text.{◌<>◌, is_empty, join_path}
use emporium.ApiClient.Http.{Http, Uri, PathAndQuery}

pub data QueryError : Type 0 where
  serialize : String → QueryError
  invalid_uri_parts invalid_uri : QueryError

pub data ParseUriError : Type 0 where
  url_error : String → ParseUriError
  cannot_be_a_base : ParseUriError
  invalid : ParseUriError

abbrev pub Pairs : Type 0
Pairs = List (String × String)

-- What is called of the crate `url`: parsing, the pairs of the query, replacing them, and the URI of
-- the URL's text.
pub record UrlApi (U : Type 0) : Type 0 where
  pub parse : String → Result U String
  pub parse_uri : Uri → Option U
  pub cannot_be_a_base : U → Bool
  pub query_pairs : U → Pairs
  pub set_pairs : Pairs → U → U
  pub to_uri : U → Option Uri

-- the path of the new path and query
unfoldable pub path_text : Option PathAndQuery → String
path_text none = ""
path_text (some pq) = pq.path

-- the query so far, with what separates it from the new one
unfoldable pub separated : Option String → String → String
unfolding is_empty
separated none qs = ""
separated (some q) qs = if not (is_empty qs && is_empty q) then q <> "&" else q

unfoldable pub query_text : Option PathAndQuery → String → String
unfolding separated
query_text none qs = ""
query_text (some pq) qs = separated pq.query qs

module _ {H : Type 0} (http : Http H) where
  -- `Uri::from_parts(parts).unwrap()`
  unfoldable pub from_parts : Uri → Option Uri
  from_parts parts = if http.are_parts parts then some parts else none

  -- the parts with another path and query, which was parsed from a text
  unfoldable pub with_path : Uri → Option PathAndQuery → Option Uri
  unfolding from_parts
  with_path uri none = none
  with_path uri (some pq) = from_parts (record uri { path_and_query = some pq })

  -- `UriExtension::join`
  unfoldable pub join : Uri → String → Option Uri
  unfolding with_path from_parts
  join uri path = elim uri.path_and_query [
    | none ↦ from_parts uri
    | some pq ↦ with_path uri (http.parse_path_and_query (join_path pq.path path))
  ]

  -- `UriExtension::clear_query`
  unfoldable pub clear_query : Uri → Option Uri
  unfolding with_path from_parts
  clear_query uri = elim uri.path_and_query [
    | none ↦ from_parts uri
    | some pq ↦ with_path uri (http.parse_path_and_query pq.path)
  ]

  unfoldable pub append_text : Uri → Option PathAndQuery → Result Uri QueryError
  append_text uri none = err invalid_uri
  append_text uri (some pq) =
      let parts = record uri { path_and_query = some pq } in
      if http.are_parts parts then ok parts else err invalid_uri_parts

  -- `UriExtension::append_query`, by the text that the query is serialized to
  unfoldable pub append_query : Uri → Result String String → Result Uri QueryError
  unfolding path_text query_text append_text
  append_query uri (err e) = err (serialize e)
  append_query uri (ok qs) = append_text uri (
      http.parse_path_and_query
        (path_text uri.path_and_query <> "?" <> (query_text uri.path_and_query qs <> qs)))

-- the pairs of a query without those of a key
unfoldable pub without : String → Pairs → Pairs
without key = filterb (λ p. not (p.0 == key))

module _ {U : Type 0} (url : UrlApi U) where
  -- the URL with the pair in place of those of its key
  unfoldable pub replace_pairs : String → String → U → U
  unfolding without
  replace_pairs key value u =
      url.set_pairs (without key (url.query_pairs u) ++ ((key, value) ∷ [])) u

  -- `UriExtension::replace_query`
  unfoldable pub replace_query : Uri → String → String → Option Uri
  unfolding replace_pairs
  replace_query uri key value = elim (url.parse_uri uri) [
    | none ↦ none
    | some u ↦ url.to_uri (replace_pairs key value u)
  ]

  -- `IntoUri` of a `Url`
  unfoldable pub url_into_uri : U → Result Uri ParseUriError
  url_into_uri u =
      if url.cannot_be_a_base u
      then err cannot_be_a_base
      else elim (url.to_uri u) [ some uri ↦ ok uri | none ↦ err invalid ]

  -- `IntoUri` of a `&str`
  unfoldable pub str_into_uri : String → Result Uri ParseUriError
  unfolding url_into_uri
  str_into_uri s = elim (url.parse s) [ err e ↦ err (url_error e) | ok u ↦ url_into_uri u ]
