-- ===== src/Linode/Listing.antt =====
-- The items that `LinodeClient::get_paginated` of services/linode/src/lib.rs streams.
use emporium.Prelude.{
  ℕ, zero, suc, ◌+◌, ◌≡◌, refl, ◌∙◌, ap, sym, ◌≤◌, String, Bool, true, false, Option, none, some,
  List, [], ◌∷◌, ◌++◌, map, Result, ok, err, ltb, arith, inl, inr, ◌==◌, string_eq, Bool-cases,
  if◌then◌else◌,
}
use emporium.Std.Num.{to_decimal}
use emporium.ApiClient.Http.{Uri, Request}
use emporium.ApiClient.Uri.{Pairs, UrlApi, without, replace_pairs, replace_query}
use emporium.ApiClient.Paginate.{
  Api, BoxError, HttpResponse, collect, new, fetch, is_success, page_of,
}
use emporium.ApiClient.Paginate.Stream.{Pages, no_request, page, new-Pages}
use emporium.Linode.Pagination.{PaginatedData, items, next, next_of, linode_api}

-- the page that a query asks for, which is the first unless it says another
unfoldable pub asked_page : Pairs → String
asked_page [] = "1"
asked_page ((key, value) ∷ pairs) = if key == "page" then value else asked_page pairs

asked_page-without :
    (value : String) (pairs : Pairs)
    → asked_page (without "page" pairs ++ (("page", value) ∷ [])) ≡ value
unfolding asked_page without emporium.Prelude.filterb
asked_page-without value [] = refl
asked_page-without value ((key, v) ∷ pairs) = elim (Bool-cases (key == "page")) [
  | inl e ↦ rw e (asked_page-without value pairs)
  | inr e ↦ rw e (rw e (asked_page-without value pairs))
]

first_page : "1" ≡ to_decimal 1
unfolding to_decimal
first_page = refl

-- the items of as many pages, from one on
unfoldable pub items_from : {T E : Type 0} → (ℕ → List T) → ℕ → ℕ → List (Result T (BoxError E))
items_from data_at k zero = []
items_from data_at k (suc m) = map ok (data_at k) ++ items_from data_at (suc k) m

-- What `url` says of a URL that was parsed from a URI, with the page among its pairs replaced: its text
-- is a URI, from which a URL with these pairs is parsed.
pub record IsUrl {U : Type 0} (url : UrlApi U) : Type 0 where
  pub replaced :
      (uri : Uri) (u : U) (value : String)
      → url.parse_uri uri ≡ some u
      → (changed : Uri) × (v : U) × (url.to_uri (replace_pairs url "page" value u) ≡ some changed)
        × (url.parse_uri changed ≡ some v)
        × (url.query_pairs v ≡ without "page" (url.query_pairs u) ++ (("page", value) ∷ []))

module _ {U H B T E : Type 0} (url : UrlApi U) (rebuild : Request H B → Option (Request H B))
    (polls : Request H B → ℕ)
    (execute : Request H B → Result (HttpResponse (PaginatedData T) E) E) where
  abbrev answer : Result String E → List T → ℕ → ℕ → HttpResponse (PaginatedData T) E
  answer text found k n = record {
    status = 200;
    text = text;
    json = ok (record { data_of = found; paginate = record { page = k; pages = n } });
  }

  -- a service with `n` pages, which answers a request for one of them with its items and its number
  pub record Serves (n : ℕ) (data_at : ℕ → List T) : Type 0 where
    pub text : Result String E
    pub execute_lem :
        (req : Request H B) (u : U) (k : ℕ)
        → url.parse_uri req.uri ≡ some u
        → asked_page (url.query_pairs u) ≡ to_decimal k
        → k ≤ n
        → execute req ≡ ok (answer text (data_at k) k n)

  abbrev pub api : Api (Request H B) (PaginatedData T) T E
  api = linode_api url rebuild polls execute

  next-last :
      (n : ℕ) (req : Request H B) → next url (record { page = n; pages = n }) req ≡ some none
  unfolding next
  next-last n req = rw (same n) refl
    where
      same : (n : ℕ) → ltb n n ≡ false
      same n = ground arith

  -- the request for the page after one that is not the last
  next-more :
      (k n : ℕ) (req : Request H B) (u : U)
      → IsUrl url
      → url.parse_uri req.uri ≡ some u
      → suc k ≤ n
      → (after : Request H B) × (v : U) × (next url (record { page = k; pages = n }) req
          ≡ some (some after))
        × (url.parse_uri after.uri ≡ some v)
        × (asked_page (url.query_pairs v) ≡ to_decimal (suc k))
  unfolding next replace_query
  next-more k n req u is_url e le =
      let (changed, v, to, back, pairs) = is_url.replaced req.uri u (to_decimal (k + 1)) e in
      (
        record req { uri = changed },
        v,
        rw (more k n le, e, to) refl,
        back,
        ap asked_page pairs
            ∙ asked_page-without (to_decimal (k + 1)) (url.query_pairs u)
            ∙ ap to_decimal (plus k),
      )
    where
      plus : (k : ℕ) → k + 1 ≡ suc k
      plus k = omega arith

      more : (k n : ℕ) → suc k ≤ n → ltb k n ≡ true
      more k n h = ground arith

  fetched :
      (text : Result String E) (found : List T) (k n : ℕ)
      → fetch api (ok (answer text found k n))
        ≡ ok (some (record { data_of = found; paginate = record { page = k; pages = n } }))
  unfolding fetch is_success page_of
  fetched text found k n = refl

  Pages-items_from :
      (m k n : ℕ) (data_at : ℕ → List T) (req : Request H B) (u : U)
      → IsUrl url
      → ((r : Request H B) → rebuild r ≡ some r)
      → Serves n data_at
      → k + m ≡ n
      → url.parse_uri req.uri ≡ some u
      → asked_page (url.query_pairs u) ≡ to_decimal k
      → Pages api (some req) (items_from data_at k (suc m))
  unfolding items_from linode_api items next_of
  Pages-items_from zero k n data_at req u is_url builds serves sum e asked =
      page req req (record { data_of = data_at k; paginate = record { page = k; pages = n } }) []
        (builds req)
        (ap (fetch api) (serves.execute_lem req u k e asked (omega arith))
          ∙ fetched serves.text (data_at k) k n)
        (rw
          (ap (λ p. next url (record { page = p; pages = n }) req) (last k n sum) ∙ next-last n req)
          no_request)
    where
      last : (k n : ℕ) → k + 0 ≡ n → k ≡ n
      last k n h = omega arith
  Pages-items_from (suc m) k n data_at req u is_url builds serves sum e asked =
      let (after, v, found, parsed, again) = next-more k n req u is_url e (omega arith) in
      page req req (record { data_of = data_at k; paginate = record { page = k; pages = n } })
        (items_from data_at (suc k) (suc m)) (builds req)
        (ap (fetch api) (serves.execute_lem req u k e asked (omega arith))
          ∙ fetched serves.text (data_at k) k n)
        (rw found (
          Pages-items_from m (suc k) n data_at after v is_url builds serves (omega arith) parsed
            again))

  -- The stream that `get_paginated` gives for a request that names no other page than the first ends
  -- after finitely many polls, and has then yielded the items of all the service's pages in order.
  pub linode_api-new :
      (m : ℕ) (data_at : ℕ → List T) (req : Request H B) (u : U)
      → IsUrl url
      → ((r : Request H B) → rebuild r ≡ some r)
      → Serves (suc m) data_at
      → url.parse_uri req.uri ≡ some u
      → asked_page (url.query_pairs u) ≡ "1"
      → (fuel : ℕ) × (collect api fuel (new req) ≡ (items_from data_at 1 (suc m), true))
  linode_api-new m data_at req u is_url builds serves e asked =
      new-Pages api req (items_from data_at 1 (suc m)) (
        Pages-items_from m 1 (suc m) data_at req u is_url builds serves (omega arith) e
          (asked ∙ first_page))
