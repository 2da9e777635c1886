-- ===== src/ApiClient/Paginate/Stream.antt =====
-- What the stream of api-client/src/paginate.rs yields for a run of pages.
use emporium.Prelude.{
  ℕ, zero, suc, ◌≡◌, refl, ap, ◌∙◌, Bool, true, false, Option, none, some, List, [], ◌∷◌, ◌++◌,
  Result, ok, err, map,
}
use emporium.ApiClient.Paginate.{
  Api, BoxError, Paginated, Poll, State, buffered, collect, fetch, new, next_request, pending,
  poll_next, poll_output, poll_query, poll_state, query, ready, rebuilt, requesting,
}

module _ {R T P E : Type 0} (api : Api R P T E) where
  -- What the pages from a request on hold, as far as the API goes: the items of each page and then
  -- those of the next, until there is no next request, it cannot be built, or it fails.
  pub data Pages : Option R → List (Result T (BoxError E)) → Type 0 where
    no_request : Pages none []
    not_built : (r : R) → api.rebuild r ≡ none → Pages (some r) []
    request_failed :
        (r b : R) (e : BoxError E)
        → api.rebuild r ≡ some b
        → fetch api (api.execute b) ≡ err e
        → Pages (some r) (err e ∷ [])
    page :
        (r b : R) (p : P) (rest : List (Result T (BoxError E)))
        → api.rebuild r ≡ some b
        → fetch api (api.execute b) ≡ ok (some p)
        → Pages (api.next (api.items p).1 r) rest
        → Pages (some r) (map ok (api.items p).0 ++ rest)

  -- after some number of polls, the stream has ended with these items
  abbrev pub Yields : Option R → State T P E → List (Result T (BoxError E)) → Type 0
  Yields request state out =
      (fuel : ℕ) × (collect api fuel (record { request = request; state = state }) ≡ (out, true))

  -- what `collect` makes of a poll and of the rest
  abbrev step :
      Poll T E × Paginated R T P E
      → List (Result T (BoxError E)) × Bool
      → List (Result T (BoxError E)) × Bool
  step x (rest, ended) = elim x.0 [
    | pending ↦ (rest, ended)
    | ready none ↦ ([], true)
    | ready (some item) ↦ (item ∷ rest, ended)
  ]

  after_pending :
      (request q : Option R) (state t : State T P E) (out : List (Result T (BoxError E)))
      → poll_state api request state ≡ (pending, record { request = q; state = t })
      → Yields q t out
      → Yields request state out
  unfolding collect poll_next
  after_pending request q state t out h (fuel, y) =
      (suc fuel, ap (λ x. step x (collect api fuel x.1)) h ∙ y)

  after_wait :
      (request : Option R) (n : ℕ) (output : Result (Option P) (BoxError E))
      (out : List (Result T (BoxError E)))
      → Yields request (requesting zero output) out
      → Yields request (requesting n output) out
  unfolding poll_state
  after_wait request zero output out y = y
  after_wait request (suc n) output out y =
      after_pending request request (requesting (suc n) output) (requesting n output) out refl
        (after_wait request n output out y)

  after_items :
      (request : Option R) (items : List T) (out : List (Result T (BoxError E)))
      → Yields request query out
      → Yields request (buffered items) (map ok items ++ out)
  unfolding collect poll_next poll_state
  after_items request [] out y = after_pending request request (buffered []) query out refl y
  after_items request (item ∷ items) out y =
      let (fuel, e) = after_items request items out y in
      (suc fuel, ap (λ x. (ok item ∷ x.0, x.1)) e)

  after_request :
      (r b : R) (out : List (Result T (BoxError E)))
      → api.rebuild r ≡ some b
      → Yields (some r) (requesting zero (fetch api (api.execute b))) out
      → Yields (some r) query out
  unfolding poll_state poll_query rebuilt
  after_request r b out h y =
      let output = fetch api (api.execute b) in
      after_pending (some r) (some r) query (requesting (api.polls b) output) out
        (ap (poll_query api (some r)) h) (after_wait (some r) (api.polls b) output out y)

  Yields-Pages :
      (request : Option R) (out : List (Result T (BoxError E)))
      → Pages request out
      → Yields request query out
  unfolding collect poll_next poll_state poll_query rebuilt poll_output next_request
  Yields-Pages none out no_request = (1, refl)
  Yields-Pages (some r) out (not_built r' h) =
      (1, ap (λ o. step (poll_query api (some r) o) ([], false)) h)
  Yields-Pages (some r) out (request_failed r' b e h f) =
      after_request r b (err e ∷ []) h (rw f (2, refl))
  Yields-Pages (some r) out (page r' b p rest h f next) =
      after_request r b (map ok (api.items p).0 ++ rest) h (
        rw f (
          after_pending (some r) (api.next (api.items p).1 r) (requesting zero (ok (some p)))
            (buffered (api.items p).0) (map ok (api.items p).0 ++ rest) refl
            (after_items (api.next (api.items p).1 r) (api.items p).0 rest
              (Yields-Pages (api.next (api.items p).1 r) rest next))))

  -- Where the pages from a request on are finitely many, its stream ends after finitely many polls,
  -- and has then yielded exactly the items of the pages in order, with the error that ended them, if
  -- one did.
  pub new-Pages :
      (request : R) (out : List (Result T (BoxError E)))
      → Pages (some request) out
      → (fuel : ℕ) × (collect api fuel (new request) ≡ (out, true))
  unfolding new
  new-Pages request out pages = Yields-Pages (some request) out pages
