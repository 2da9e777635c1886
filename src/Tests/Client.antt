-- ===== src/Tests/Client.antt =====
-- The retry policies and the paginated stream at concrete responses.
use emporium.Prelude.{
  ℕ, zero, suc, ◌≡◌, refl, String, true, Option, some, none, Result, ok, err, List, [], ◌∷◌,
}
use emporium.ApiClient.Retry.{Backoff, Request, Response, attempts_made}
use emporium.ApiClient.Retry.Counting.{attempts_made_lem, leading_failures, least}
use emporium.ApiClient.Paginate.{Api, BoxError, collect, fetch, new, is_success, page_of}
use emporium.ApiClient.Paginate.Stream.{Pages, page, no_request, new-Pages}

abbrev unavailable : Result Response String
unavailable = ok (record { status = 503; retry_after = none })

abbrev outage : List (Result Response String)
outage = unavailable ∷ unavailable ∷ err "reset" ∷ []

abbrev plain : Request
plain = record { retry_after = none }

attempts_made_lem_example :
    attempts_made (record { left = 2 }) outage ≡ least 2 (leading_failures outage)
attempts_made_lem_example = attempts_made_lem 2 outage

abbrev tenth : Backoff
tenth = record { delay = 10; exponent = 2; max_delay = 25 }

-- two pages, of which each is asked for by its number
abbrev last_page : ℕ → ℕ → Option ℕ
last_page zero r = some 1
last_page (suc p) r = none

abbrev books : Api ℕ ℕ String String
books = record {
  rebuild = λ r. some r;
  polls = λ r. r;
  execute = λ r. ok (record { status = 200; text = ok ""; json = ok r });
  items = λ p. ("title" ∷ [], p);
  next = last_page;
}

abbrev titles : List (Result String (BoxError String))
titles = ok "title" ∷ ok "title" ∷ []

two-Pages : Pages books (some 0) titles
unfolding fetch is_success page_of
two-Pages = page 0 0 0 (ok "title" ∷ []) refl refl (page 1 1 1 [] refl refl no_request)

new-Pages_example : (fuel : ℕ) × (collect books fuel (new 0) ≡ (titles, true))
new-Pages_example = new-Pages books 0 titles two-Pages
