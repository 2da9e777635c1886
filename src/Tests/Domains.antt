-- ===== src/Tests/Domains.antt =====
-- Concrete data for the results on the client of Linode.
use emporium.Prelude.{
  ℕ, ◌≡◌, refl, ◌++◌, zero, suc, ◌==◌, string_eq, if◌then◌else◌, ◌≤◌, String, Bool, true, Option,
  none, some, List, [], ◌∷◌, Result, ok, err, arith, ap, sym, ◌∙◌,
}
use mathlib.Core.Option.{some_inj}
use emporium.ApiClient.Http.{get, Uri, Request}
use emporium.ApiClient.Uri.{Pairs, UrlApi, without, replace_pairs}
use emporium.ApiClient.Paginate.{HttpResponse, collect, new}
use emporium.Linode.Pagination.{PaginatedData, linode_api}
use emporium.Linode.Listing.{IsUrl, Serves, asked_page, items_from, linode_api-new}
use emporium.Linode.Ttl.{ttl_values, contains, serialize_ttl, serialize_ttl_lem}
use emporium.Linode.Types.{root, sub_domain_eq, sub_domain_from, sub_domain_is}
use emporium.Linode.SubDomains.{sub_domain_is-sub_domain_from}
use emporium.Std.Num.{to_decimal}
use emporium.Tests.Remote.{api}

-- three hours are sent as four
serialize_ttl_lem_example :
    (contains ttl_values (serialize_ttl 10800) ≡ true)
    × (10800 ≤ serialize_ttl 10800)
    × (serialize_ttl 10800 ≤ 14400)
unfolding contains
serialize_ttl_lem_example = serialize_ttl_lem 10800 14400 accepted (omega arith)
  where
    accepted : contains ttl_values 14400 ≡ true
    accepted = refl

sub_domain_is-sub_domain_from_example :
    sub_domain_is root "@" ≡ sub_domain_eq root (sub_domain_from "@")
sub_domain_is-sub_domain_from_example = sub_domain_is-sub_domain_from root "@"

-- URLs whose query is a page
abbrev query_of : Uri → Option String
query_of uri = elim uri.path_and_query [ none ↦ none | some pq ↦ pq.query ]

abbrev pairs_of : Option String → Pairs
pairs_of none = []
pairs_of (some value) = ("page", value) ∷ []

abbrev first_value : Pairs → Option String
first_value [] = none
first_value ((key, value) ∷ pairs) = some value

abbrev urls : UrlApi Uri
urls = record {
  parse = λ _. err "";
  parse_uri = some;
  cannot_be_a_base = λ _. Bool.false;
  query_pairs = λ uri. pairs_of (query_of uri);
  set_pairs = λ pairs uri. record uri {
    path_and_query = some (record { path = "/"; query = first_value pairs });
  };
  to_uri = some;
}

replaced_alone :
    (q : Option String) (value : String)
    → without "page" (pairs_of q) ++ (("page", value) ∷ []) ≡ (("page", value) ∷ [])
unfolding without emporium.Prelude.filterb
replaced_alone none value = refl
replaced_alone (some q) value = refl

urls-IsUrl : IsUrl urls
unfolding replace_pairs
urls-IsUrl = record {
  replaced = λ uri u value e. (
    replace_pairs urls "page" value u,
    replace_pairs urls "page" value u,
    refl,
    refl,
    ap (λ pairs. pairs_of (first_value pairs)) (replaced_alone (query_of u) value)
        ∙ sym (replaced_alone (query_of u) value),
  );
}

-- a service with two pages, each of which holds its number
abbrev number : String → ℕ
number page = if page == "1" then 1 else if page == "2" then 2 else 0

abbrev two_pages :
    Request (Unit {0}) (Unit {0}) → Result (HttpResponse (PaginatedData ℕ) String) String
two_pages req =
    let k = number (asked_page (pairs_of (query_of req.uri))) in
    ok (record {
      status = 200;
      text = ok "";
      json = ok (record { data_of = k ∷ []; paginate = record { page = k; pages = 2 } });
    })

numbers : (k : ℕ) → k ≤ 2 → number (to_decimal k) ≡ k
unfolding to_decimal
numbers zero h = refl
numbers (suc zero) h = refl
numbers (suc (suc zero)) h = refl
numbers (suc (suc (suc k))) h = absurd (omega arith)

two_pages-Serves : Serves urls some (λ _. 0) two_pages 2 (λ k. k ∷ [])
two_pages-Serves = record {
  text = ok "";
  execute_lem = λ req u k parsed asked le.
      ap
        (λ n. ok (record {
          status = 200;
          text = ok "";
          json = ok (record { data_of = n ∷ []; paginate = record { page = n; pages = 2 } });
        }))
        (ap (λ uri. number (asked_page (pairs_of (query_of uri)))) (some_inj.0 parsed)
          ∙ ap number asked
          ∙ numbers k le);
}

abbrev domains : Request (Unit {0}) (Unit {0})
domains = record { method = get; uri = api; headers = tt; body = tt }

first_asked : asked_page (pairs_of (query_of api)) ≡ "1"
unfolding asked_page
first_asked = refl

linode_api-new_example :
    (fuel : ℕ) × (collect (linode_api urls some (λ _. 0) two_pages) fuel (new domains)
      ≡ (items_from (λ k. k ∷ []) 1 2, true))
linode_api-new_example =
    linode_api-new urls some (λ _. 0) two_pages 1 (λ k. k ∷ []) domains api urls-IsUrl (λ _. refl)
      two_pages-Serves refl first_asked
