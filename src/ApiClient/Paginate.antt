-- ===== src/ApiClient/Paginate.antt =====
-- The stream `Paginated` of api-client/src/paginate.rs. The request type `R`, the page type `P` with
-- the two methods of `Paginator`, and the client are parameters, since they come from the user of
-- the crate and from `http`.
pub mod Stream
use emporium.Prelude.{
  ℕ, zero, suc, ◌≡◌, String, Bool, true, false, ◌&&◌, Option, none, some, List, [], ◌∷◌, Result, ok,
  err, leb, ltb, if◌then◌else◌,
}

-- `BoxError`: an error of the client, or a `PaginationError` with its status and text
pub data BoxError (E : Type 0) : Type 0 where
  boxed : E → BoxError E
  pagination_failed : ℕ → String → BoxError E

-- a response, with what reading its body as text or as JSON gives
pub record HttpResponse (P E : Type 0) : Type 0 where
  pub status : ℕ
  pub text : Result String E
  pub json : Result P E

-- What the stream is given: whether a request can be built again, what `execute` answers and after
-- how many polls, and the methods of the page. `items` takes the items out of the page.
pub record Api (R P T E : Type 0) : Type 0 where
  pub rebuild : R → Option R
  pub polls : R → ℕ
  pub execute : R → Result (HttpResponse P E) E
  pub items : P → List T × P
  pub next : P → R → Option R

-- `PaginatedStreamState`: a future is the number of polls that it is still pending, and its output
pub data State (T P E : Type 0) : Type 0 where
  query : State T P E
  buffered : List T → State T P E
  requesting : ℕ → Result (Option P) (BoxError E) → State T P E
  done : State T P E

pub record Paginated (R T P E : Type 0) : Type 0 where
  pub request : Option R
  pub state : State T P E

-- `Poll<Option<Item>>`
pub data Poll (T E : Type 0) : Type 0 where
  pending : Poll T E
  ready : Option (Result T (BoxError E)) → Poll T E

-- `Paginated::new`
unfoldable pub new : {R T P E : Type 0} → R → Paginated R T P E
new request = record { request = some request; state = query }

module _ {R T P E : Type 0} (api : Api R P T E) where
  -- `StatusCode::is_success`
  unfoldable pub is_success : ℕ → Bool
  is_success status = leb 200 status && ltb status 300

  -- the error of a response that is no success
  unfoldable pub failure : ℕ → Result String E → Result (Option P) (BoxError E)
  failure status (err e) = err (boxed e)
  failure status (ok text) = err (pagination_failed status text)

  unfoldable pub page_of : Result P E → Result (Option P) (BoxError E)
  page_of (err e) = err (boxed e)
  page_of (ok page) = ok (some page)

  -- the output of the future that requests a page
  unfoldable pub fetch : Result (HttpResponse P E) E → Result (Option P) (BoxError E)
  unfolding is_success failure page_of
  fetch (err e) = err (boxed e)
  fetch (ok response) =
      if is_success response.status
      then page_of response.json
      else failure response.status response.text

  -- the arm of `Query`
  unfoldable pub poll_query : Option R → Option R → Poll T E × Paginated R T P E
  unfolding fetch
  poll_query request none = (ready none, record { request = request; state = done })
  poll_query request (some built) = (
    pending,
    record { request = request; state = requesting (api.polls built) (fetch (api.execute built)) },
  )

  -- the request that the stream holds, built again
  unfoldable pub rebuilt : Option R → Option R
  rebuilt none = none
  rebuilt (some request) = api.rebuild request

  -- `this.request.take()` and `paginator.next`
  unfoldable pub next_request : P → Option R → Option R
  next_request page none = none
  next_request page (some request) = api.next page request

  -- the arm of `Requesting`, when the future is ready
  unfoldable pub poll_output :
      Option R → Result (Option P) (BoxError E) → Poll T E × Paginated R T P E
  unfolding next_request
  poll_output request (ok (some page)) =
      let (items, emptied) = api.items page in
      (pending, record { request = next_request emptied request; state = buffered items })
  poll_output request (ok none) = (ready none, record { request = request; state = done })
  poll_output request (err e) = (ready (some (err e)), record { request = request; state = done })

  -- `Stream::poll_next`
  unfoldable pub poll_state : Option R → State T P E → Poll T E × Paginated R T P E
  unfolding poll_query poll_output rebuilt
  poll_state request query = poll_query request (rebuilt request)
  poll_state request (buffered (item ∷ items)) =
      (ready (some (ok item)), record { request = request; state = buffered items })
  poll_state request (buffered []) = (pending, record { request = request; state = query })
  poll_state request (requesting zero output) = poll_output request output
  poll_state request (requesting (suc n) output) =
      (pending, record { request = request; state = requesting n output })
  poll_state request done = (ready none, record { request = request; state = done })

  unfoldable pub poll_next : Paginated R T P E → Poll T E × Paginated R T P E
  unfolding poll_state
  poll_next p = poll_state p.request p.state

  -- `StreamExt::collect` for at most `fuel` polls: the items in order, and whether the stream ended
  unfoldable pub collect : ℕ → Paginated R T P E → List (Result T (BoxError E)) × Bool
  unfolding poll_next
  collect zero p = ([], false)
  collect (suc fuel) p =
      let (poll, q) = poll_next p in
      let (rest, ended) = collect fuel q in
      elim poll [
        | pending ↦ (rest, ended)
        | ready none ↦ ([], true)
        | ready (some item) ↦ (item ∷ rest, ended)
      ]
