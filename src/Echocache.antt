-- ===== src/Echocache.antt =====
-- echocache/src/lib.rs: a value that is fetched once for all who ask while the fetch is running. The
-- state is what is behind the locks, the clock, and the spawned tasks; the callers are numbers. A
-- fetch ends when `finish` gives its value, and its task then sends the value to those who wait.
pub mod Flights
pub mod Answers
pub mod Values
pub mod Failures
pub mod Alone
use emporium.Prelude.{
  ℕ, suc, ◌+◌, ◌≡◌, Bool, true, false, Option, none, some, List, [], ◌∷◌, ◌++◌, map, leb, nat_beq,
  if◌then◌else◌,
}

-- `InnerCache`; a request is the number of its `Request` value
pub data InnerCache (T : Type 0) : Type 0 where
  empty : InnerCache T
  inflight : ℕ → InnerCache T
  cached : T → Option ℕ → InnerCache T

-- where a spawned task is: awaiting the fetch, or about to lock its request and send
pub data Stage (T : Type 0) : Type 0 where
  fetching : Stage T
  sending : T → Stage T

-- A task of `Request::handle`, which holds the channel's sender, with the callers that subscribed, and
-- whether the future it was given writes the cache.
pub record Task (T : Type 0) : Type 0 where
  pub request : ℕ
  pub writes_cache : Bool
  pub waiters : List ℕ
  pub stage : Stage T

pub record Cached (T : Type 0) : Type 0 where
  pub inner : InnerCache T
  pub expiration : Option ℕ
  pub now : ℕ
  pub tasks : List (Task T)
  pub next_request : ℕ
  -- what the callers have been given
  pub answers : List (ℕ × T)

-- `expiration.map(|lifetime| Instant::now() + lifetime)`
unfoldable pub expires_at : Option ℕ → ℕ → Option ℕ
expires_at none now = none
expires_at (some lifetime) now = some (now + lifetime)

-- `expires.map(|e| e >= Instant::now()).unwrap_or(true)`
unfoldable pub is_fresh : Option ℕ → ℕ → Bool
is_fresh none now = true
is_fresh (some e) now = leb now e

module _ {T : Type 0} where
  -- `Cached::new`
  unfoldable pub new : Option ℕ → ℕ → Cached T
  new expiration now = record {
    inner = empty;
    expiration = expiration;
    now = now;
    tasks = [];
    next_request = 0;
    answers = [];
  }

  -- `InnerCache::new_with_value`
  unfoldable pub inner_with_value : T → Option ℕ → ℕ → InnerCache T
  unfolding expires_at
  inner_with_value value expiration now = cached value (expires_at expiration now)

  -- `Cached::new_with_value`
  unfoldable pub new_with_value : T → Option ℕ → ℕ → Cached T
  unfolding new inner_with_value
  new_with_value value expiration now = record (new expiration now) {
    inner = inner_with_value value expiration now;
  }

  -- `Cached::clear`
  unfoldable pub clear : Cached T → Cached T
  clear c = record c { inner = empty }

  -- `Cached::map_cached`
  unfoldable pub map_cached {ℓ} : {U : Type ℓ} → (T → U) → Cached T → Option U
  unfolding is_fresh
  map_cached f c = elim c.inner [
    | empty ↦ none
    | inflight r ↦ none
    | cached value expires ↦ if is_fresh expires c.now then some (f value) else none
  ]

  new_task : ℕ → Bool → ℕ → Task T
  new_task request writes_cache caller = record {
    request = request;
    writes_cache = writes_cache;
    waiters = caller ∷ [];
    stage = fetching;
  }

  -- `Request::handle`: subscribe to the task of the request, or spawn one
  unfoldable pub handle : ℕ → Bool → ℕ → List (Task T) → List (Task T)
  unfolding new_task
  handle request writes_cache caller [] = new_task request writes_cache caller ∷ []
  handle request writes_cache caller (task ∷ tasks) =
      let rest = handle request writes_cache caller tasks in
      if nat_beq task.request request
      then record task { waiters = caller ∷ task.waiters } ∷ tasks
      else task ∷ rest

  -- the last arm of `Cached::get`
  unfoldable pub start : ℕ → Cached T → Cached T
  unfolding handle
  start caller c = record c {
    inner = inflight c.next_request;
    tasks = handle c.next_request true caller c.tasks;
    next_request = suc c.next_request;
  }

  -- `Cached::get`, up to the await
  unfoldable pub get : ℕ → Cached T → Cached T
  unfolding is_fresh handle start
  get caller c = elim c.inner [
    | cached value expires ↦
        if is_fresh expires c.now
        then record c { answers = (caller, value) ∷ c.answers }
        else start caller c
    | inflight request ↦ record c { tasks = handle request false caller c.tasks }
    | empty ↦ start caller c
  ]

  -- the fetch of a request is over: its task is about to send
  unfoldable pub finish_tasks : ℕ → T → List (Task T) → List (Task T)
  finish_tasks request value [] = []
  finish_tasks request value (task ∷ tasks) =
      let rest = finish_tasks request value tasks in
      if nat_beq task.request request
      then record task { stage = sending value } ∷ rest
      else task ∷ rest

  -- whether the task of a request is awaiting its fetch, and whether that fetch writes the cache
  unfoldable pub is_fetching : ℕ → List (Task T) → Bool
  is_fetching request [] = false
  is_fetching request (task ∷ tasks) =
      let rest = is_fetching request tasks in
      if nat_beq task.request request
      then elim task.stage [ fetching ↦ true | sending _ ↦ rest ]
      else rest

  unfoldable pub will_write : ℕ → List (Task T) → Bool
  will_write request [] = false
  will_write request (task ∷ tasks) =
      let rest = will_write request tasks in
      if nat_beq task.request request then task.writes_cache else rest

  -- the fetch of a request gives its value, and the future that `get` made of it writes the cache
  unfoldable pub finish : ℕ → T → Cached T → Cached T
  unfolding finish_tasks is_fetching will_write inner_with_value
  finish request value c =
      if is_fetching request c.tasks
      then record c {
        inner =
            if will_write request c.tasks
            then inner_with_value value c.expiration c.now
            else c.inner;
        tasks = finish_tasks request value c.tasks;
      }
      else c

  -- the task of a request sends its value to those who wait, and ends
  unfoldable pub send_tasks : ℕ → List (Task T) → List (Task T)
  send_tasks request [] = []
  send_tasks request (task ∷ tasks) =
      let rest = send_tasks request tasks in
      if nat_beq task.request request
      then elim task.stage [ sending _ ↦ rest | fetching ↦ task ∷ rest ]
      else task ∷ rest

  unfoldable pub sent : ℕ → List (Task T) → List (ℕ × T)
  sent request [] = []
  sent request (task ∷ tasks) =
      let rest = sent request tasks in
      if nat_beq task.request request
      then elim task.stage [
        | sending value ↦ map (λ caller. (caller, value)) task.waiters ++ rest
        | fetching ↦ rest
      ]
      else rest

  unfoldable pub send : ℕ → Cached T → Cached T
  unfolding send_tasks sent
  send request c = record c {
    tasks = send_tasks request c.tasks;
    answers = sent request c.tasks ++ c.answers;
  }

-- what happens to a cache that is not cleared, one lock at a time
pub data Event (T : Type 0) : Type 0 where
  gets : ℕ → Event T
  finishes : ℕ → T → Event T
  sends : ℕ → Event T
  passes : ℕ → Event T

unfoldable pub happen : {T : Type 0} → Event T → Cached T → Cached T
unfolding get finish send
happen (gets caller) c = get caller c
happen (finishes request value) c = finish request value c
happen (sends request) c = send request c
happen (passes n) c = record c { now = c.now + n }

unfoldable pub happen_all : {T : Type 0} → List (Event T) → Cached T → Cached T
unfolding happen
happen_all [] c = c
happen_all (event ∷ events) c = happen_all events (happen event c)
