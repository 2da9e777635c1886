-- ===== src/Linode/Pagination.antt =====
-- The pagination of services/linode/src/lib.rs, with `PaginatedData` of api-client/src/paginate.rs. A
-- panic of the URL's change is `none`.
use emporium.Prelude.{ℕ, ◌+◌, Option, none, some, List, [], Result, ltb, string_eq, if◌then◌else◌}
use emporium.Std.Num.{to_decimal}
use emporium.ApiClient.Http.{Request}
use emporium.ApiClient.Uri.{UrlApi, replace_query}
use emporium.ApiClient.Paginate.{Api, HttpResponse}

-- `Paginator`; the number of results is never read
pub record Paginator : Type 0 where
  pub page : ℕ
  pub pages : ℕ

-- `PaginatedData<T, Paginator>`
pub record PaginatedData (T : Type 0) : Type 0 where
  pub data_of : List T
  pub paginate : Paginator

-- `Paginator::items` of the data, which takes them
unfoldable pub items : {T : Type 0} → PaginatedData T → List T × PaginatedData T
items p = (p.data_of, record p { data_of = [] })

module _ {U H B : Type 0} (url : UrlApi U) where
  -- `PaginationInfo::next`: a panic, or the next request, if there is one
  unfoldable pub next : Paginator → Request H B → Option (Option (Request H B))
  unfolding replace_query
  next p req =
      if ltb p.page p.pages
      then elim (replace_query url req.uri "page" (to_decimal (p.page + 1))) [
        | none ↦ none
        | some uri ↦ some (some (record req { uri = uri }))
      ]
      else some none

  -- the next request of a stream, which a panic ends
  unfoldable pub next_of : Option (Option (Request H B)) → Option (Request H B)
  next_of none = none
  next_of (some next) = next

  -- `LinodeClient::get_paginated`, from its request on
  unfoldable pub linode_api :
      {T E : Type 0}
      → (Request H B → Option (Request H B))
      → (Request H B → ℕ)
      → (Request H B → Result (HttpResponse (PaginatedData T) E) E)
      → Api (Request H B) (PaginatedData T) T E
  linode_api rebuild polls execute = record {
    rebuild = rebuild;
    polls = polls;
    execute = execute;
    items = items;
    next = λ p req. next_of (next p.paginate req);
  }
