-- ===== src/Echocache/Flights.antt =====
-- How many fetches of echocache/src/lib.rs run at once.
use emporium.Prelude.{
  ℕ, suc, ◌≡◌, ◌≤◌, ◌<◌, refl, Bool, true, false, Option, List, [], ◌∷◌, arith, nat_beq, ◌&&◌, ltb,
}
use emporium.Echocache.{
  Cached, Event, InnerCache, Task, cached, empty, fetching, finish, finish_tasks, finishes, get,
  gets, handle, happen, happen_all, inflight, inner_with_value, is_fetching, new, new_task, passes,
  send, send_tasks, sending, sends, start, will_write,
}

module _ {T : Type 0} where
  -- how many tasks are awaiting their fetch
  unfoldable pub flights : List (Task T) → ℕ
  flights [] = 0
  flights (task ∷ tasks) =
      let rest = flights tasks in elim task.stage [ fetching ↦ suc rest | sending _ ↦ rest ]

  -- every task is of a request below `n` and writes the cache
  unfoldable pub are_below : ℕ → List (Task T) → Bool
  are_below n [] = true
  are_below n (task ∷ tasks) = ltb task.request n && task.writes_cache && are_below n tasks

  -- one fetch is running, of the request in the cache, or none is
  unfoldable pub agrees : InnerCache T → List (Task T) → Bool
  agrees empty tasks = nat_beq (flights tasks) 0
  agrees (cached value expires) tasks = nat_beq (flights tasks) 0
  agrees (inflight request) tasks = nat_beq (flights tasks) 1 && is_fetching request tasks

  flights-handle_old :
      (r k : ℕ) (w : Bool) (tasks : List (Task T))
      → is_fetching r tasks ≡ true
      → flights (handle r w k tasks) ≡ flights tasks
  unfolding flights handle is_fetching new_task
  flights-handle_old r k w [] h = cc
  flights-handle_old r k w (t ∷ tasks) h = ground (arith, flights-handle_old r k w tasks)

  is_fetching-handle_old :
      (r k : ℕ) (w : Bool) (tasks : List (Task T))
      → is_fetching r tasks ≡ true
      → is_fetching r (handle r w k tasks) ≡ true
  unfolding flights handle is_fetching new_task
  is_fetching-handle_old r k w [] h = cc
  is_fetching-handle_old r k w (t ∷ tasks) h = ground (arith, is_fetching-handle_old r k w tasks)

  are_below-handle_old :
      (r k n : ℕ) (w : Bool) (tasks : List (Task T))
      → is_fetching r tasks ≡ true
      → are_below n (handle r w k tasks) ≡ are_below n tasks
  unfolding are_below handle is_fetching new_task
  are_below-handle_old r k n w [] h = cc
  are_below-handle_old r k n w (t ∷ tasks) h = ground (arith, are_below-handle_old r k n w tasks)

  handle_new :
      (r k : ℕ) (tasks : List (Task T))
      → are_below r tasks ≡ true
      → (flights (handle r true k tasks) ≡ suc (flights tasks))
        × (is_fetching r (handle r true k tasks) ≡ true)
        × (are_below (suc r) (handle r true k tasks) ≡ true)
  unfolding are_below handle is_fetching new_task flights
  handle_new r k [] h = (refl, ground arith, ground arith)
  handle_new r k (t ∷ tasks) h = let ih = handle_new r k tasks in ground (arith, ih)

  flights-finish_tasks :
      (r : ℕ) (v : T) (tasks : List (Task T))
      → is_fetching r tasks ≡ true
      → flights (finish_tasks r v tasks) < flights tasks
  unfolding flights finish_tasks is_fetching
  flights-finish_tasks r v [] h = cc
  flights-finish_tasks r v (t ∷ tasks) h =
      ground (arith, flights-finish_tasks r v tasks, flights-finish_le r v tasks)
    where
      flights-finish_le :
          (r : ℕ) (v : T) (tasks : List (Task T)) → flights (finish_tasks r v tasks) ≤ flights tasks
      flights-finish_le r v [] = omega arith
      flights-finish_le r v (t ∷ tasks) = ground (arith, flights-finish_le r v tasks)

  are_below-finish_tasks :
      (r n : ℕ) (v : T) (tasks : List (Task T))
      → are_below n (finish_tasks r v tasks) ≡ are_below n tasks
  unfolding are_below finish_tasks
  are_below-finish_tasks r n v [] = refl
  are_below-finish_tasks r n v (t ∷ tasks) = ground (arith, are_below-finish_tasks r n v tasks)

  will_write_lem :
      (r n : ℕ) (tasks : List (Task T))
      → are_below n tasks ≡ true
      → is_fetching r tasks ≡ true
      → will_write r tasks ≡ true
  unfolding are_below is_fetching will_write
  will_write_lem r n [] b h = cc
  will_write_lem r n (t ∷ tasks) b h = ground (arith, will_write_lem r n tasks)

  flights-send_tasks :
      (r : ℕ) (tasks : List (Task T)) → flights (send_tasks r tasks) ≡ flights tasks
  unfolding flights send_tasks
  flights-send_tasks r [] = refl
  flights-send_tasks r (t ∷ tasks) = ground (arith, flights-send_tasks r tasks)

  is_fetching-send_tasks :
      (r q : ℕ) (tasks : List (Task T)) → is_fetching q (send_tasks r tasks) ≡ is_fetching q tasks
  unfolding is_fetching send_tasks
  is_fetching-send_tasks r q [] = refl
  is_fetching-send_tasks r q (t ∷ tasks) = ground (arith, is_fetching-send_tasks r q tasks)

  are_below-send_tasks :
      (r n : ℕ) (tasks : List (Task T))
      → are_below n tasks ≡ true
      → are_below n (send_tasks r tasks) ≡ true
  unfolding are_below send_tasks
  are_below-send_tasks r n [] h = refl
  are_below-send_tasks r n (t ∷ tasks) h = ground (arith, are_below-send_tasks r n tasks)

  -- what holds of a cache that has not been cleared
  unfoldable pub is_single : Cached T → Bool
  unfolding are_below agrees
  is_single c = are_below c.next_request c.tasks && agrees c.inner c.tasks

  start_single :
      (k : ℕ) (c : Cached T)
      → are_below c.next_request c.tasks ≡ true
      → flights c.tasks ≡ 0
      → is_single (start k c) ≡ true
  unfolding is_single start agrees
  start_single k c b f = ground (arith, handle_new c.next_request k c.tasks b)

  get_at :
      (k : ℕ) (c : Cached T) (inner : InnerCache T)
      → c.inner ≡ inner
      → is_single c ≡ true
      → is_single (get k c) ≡ true
  unfolding is_single get agrees
  get_at k c empty e h = ground (arith, start_single k c)
  get_at k c (cached value expires) e h = ground (arith, start_single k c)
  get_at k c (inflight r) e h = ground (
    arith,
    flights-handle_old r k false c.tasks,
    is_fetching-handle_old r k false c.tasks,
    are_below-handle_old r k c.next_request false c.tasks,
  )

  finish_at :
      (r : ℕ) (v : T) (c : Cached T) (inner : InnerCache T)
      → c.inner ≡ inner
      → is_single c ≡ true
      → is_single (finish r v c) ≡ true
  unfolding is_single finish agrees inner_with_value
  finish_at r v c empty e h = ground (
    arith,
    flights-finish_tasks r v c.tasks,
    are_below-finish_tasks r c.next_request v c.tasks,
    will_write_lem r c.next_request c.tasks,
  )
  finish_at r v c (cached value expires) e h = ground (
    arith,
    flights-finish_tasks r v c.tasks,
    are_below-finish_tasks r c.next_request v c.tasks,
    will_write_lem r c.next_request c.tasks,
  )
  finish_at r v c (inflight q) e h = ground (
    arith,
    flights-finish_tasks r v c.tasks,
    are_below-finish_tasks r c.next_request v c.tasks,
    will_write_lem r c.next_request c.tasks,
  )

  send_at :
      (r : ℕ) (c : Cached T) (inner : InnerCache T)
      → c.inner ≡ inner
      → is_single c ≡ true
      → is_single (send r c) ≡ true
  unfolding is_single send agrees
  send_at r c empty e h =
      ground (arith, flights-send_tasks r c.tasks, are_below-send_tasks r c.next_request c.tasks)
  send_at r c (cached value expires) e h =
      ground (arith, flights-send_tasks r c.tasks, are_below-send_tasks r c.next_request c.tasks)
  send_at r c (inflight q) e h = ground (
    arith,
    flights-send_tasks r c.tasks,
    is_fetching-send_tasks r q c.tasks,
    are_below-send_tasks r c.next_request c.tasks,
  )

  happen_single :
      (event : Event T) (c : Cached T) → is_single c ≡ true → is_single (happen event c) ≡ true
  unfolding happen is_single
  happen_single (gets caller) c h = get_at caller c c.inner refl h
  happen_single (finishes request value) c h = finish_at request value c c.inner refl h
  happen_single (sends request) c h = send_at request c c.inner refl h
  happen_single (passes n) c h = h

  happen_all_single :
      (events : List (Event T)) (c : Cached T)
      → is_single c ≡ true
      → is_single (happen_all events c) ≡ true
  unfolding happen_all
  happen_all_single [] c h = h
  happen_all_single (event ∷ events) c h =
      happen_all_single events (happen event c) (happen_single event c h)

  single_flights :
      (c : Cached T) (inner : InnerCache T)
      → c.inner ≡ inner
      → is_single c ≡ true
      → flights c.tasks ≤ 1
  unfolding is_single agrees
  single_flights c empty e h = ground arith
  single_flights c (cached value expires) e h = ground arith
  single_flights c (inflight r) e h = ground arith

new_single :
    (T : Type 0) (expiration : Option ℕ) (now : ℕ) → is_single (new {T = T} expiration now) ≡ true
unfolding is_single new are_below agrees flights
new_single T expiration now = refl

-- However gets, ends of fetches, sends and the passing of time follow on each other, at most one
-- fetch of a new cache that is not cleared and whose fetches do not fail is running at a time.
pub flights-happen_all :
    {T : Type 0} (expiration : Option ℕ) (now : ℕ) (events : List (Event T))
    → flights (happen_all events (new expiration now)).tasks ≤ 1
flights-happen_all {T} expiration now events =
    let c = happen_all events (new expiration now) in
    single_flights c c.inner refl
      (happen_all_single events (new expiration now) (new_single T expiration now))
