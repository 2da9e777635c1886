-- ===== src/Echocache/Failures.antt =====
-- What a panic of a fetch does to the cache of echocache/src/lib.rs.
use emporium.Prelude.{ℕ, ◌≡◌, refl, Bool, true, false, not, Option, List, [], ◌∷◌, arith, ◌&&◌}
use emporium.Prelude.{if◌then◌else◌, nat_beq}
use emporium.Echocache.{
  fetching, sending, Cached, Event, Task, finish, finish_tasks, finishes, get, gets, handle, happen,
  happen_all, inflight, new, new_task, passes, send, send_tasks, sends, start, will_write,
}

-- the fetch of a request panics: its task ends, and with it the sender of the channel
unfoldable pub fail_tasks : {T : Type 0} → ℕ → List (Task T) → List (Task T)
fail_tasks request [] = []
fail_tasks request (task ∷ tasks) =
    let rest = fail_tasks request tasks in
    if nat_beq task.request request
    then elim task.stage [ fetching ↦ rest | sending _ ↦ task ∷ rest ]
    else task ∷ rest

unfoldable pub fail : {T : Type 0} → ℕ → Cached T → Cached T
unfolding fail_tasks
fail request c = record c { tasks = fail_tasks request c.tasks }

module _ {T : Type 0} where
  -- no task writes the cache
  unfoldable pub are_idle : List (Task T) → Bool
  are_idle [] = true
  are_idle (task ∷ tasks) = not task.writes_cache && are_idle tasks

  are_idle-handle :
      (r k : ℕ) (tasks : List (Task T))
      → are_idle tasks ≡ true
      → are_idle (handle r false k tasks) ≡ true
  unfolding are_idle handle new_task
  are_idle-handle r k [] h = refl
  are_idle-handle r k (t ∷ tasks) h = ground (arith, are_idle-handle r k tasks)

  are_idle-finish_tasks :
      (r : ℕ) (v : T) (tasks : List (Task T))
      → are_idle tasks ≡ true
      → are_idle (finish_tasks r v tasks) ≡ true
  unfolding are_idle finish_tasks
  are_idle-finish_tasks r v [] h = refl
  are_idle-finish_tasks r v (t ∷ tasks) h = ground (arith, are_idle-finish_tasks r v tasks)

  are_idle-send_tasks :
      (r : ℕ) (tasks : List (Task T)) → are_idle tasks ≡ true → are_idle (send_tasks r tasks) ≡ true
  unfolding are_idle send_tasks
  are_idle-send_tasks r [] h = refl
  are_idle-send_tasks r (t ∷ tasks) h = ground (arith, are_idle-send_tasks r tasks)

  are_idle-will_write :
      (r : ℕ) (tasks : List (Task T)) → are_idle tasks ≡ true → will_write r tasks ≡ false
  unfolding are_idle will_write
  are_idle-will_write r [] h = refl
  are_idle-will_write r (t ∷ tasks) h = ground (arith, are_idle-will_write r tasks)

  -- what stays so: a request is in flight, and no task will write the cache
  abbrev IsStuck : ℕ → Cached T → Type 0
  IsStuck r c = (c.inner ≡ inflight r) × (are_idle c.tasks ≡ true)

  happen-IsStuck :
      (r : ℕ) (event : Event T) (c : Cached T) → IsStuck r c → IsStuck r (happen event c)
  unfolding happen get finish send
  happen-IsStuck r (gets k) c h = ground (arith, h, are_idle-handle r k c.tasks)
  happen-IsStuck r (finishes q v) c h =
      ground (arith, h, are_idle-finish_tasks q v c.tasks, are_idle-will_write q c.tasks)
  happen-IsStuck r (sends q) c h = ground (arith, h, are_idle-send_tasks q c.tasks)
  happen-IsStuck r (passes n) c h = h

  happen_all-IsStuck :
      (r : ℕ) (events : List (Event T)) (c : Cached T)
      → IsStuck r c
      → IsStuck r (happen_all events c)
  unfolding happen_all
  happen_all-IsStuck r [] c h = h
  happen_all-IsStuck r (event ∷ events) c h =
      happen_all-IsStuck r events (happen event c) (happen-IsStuck r event c h)

failed-IsStuck :
    (T : Type 0) (expiration : Option ℕ) (now caller : ℕ)
    → IsStuck 0 (fail {T = T} 0 (get caller (new expiration now)))
unfolding new get start handle fail fail_tasks are_idle new_task
failed-IsStuck T expiration now caller = (refl, refl)

-- Once the first fetch of a new cache has panicked, the cache holds no value again, however many gets
-- fetch one: after any events but a clear it still names the request that failed.
pub happen_all-fail :
    {T : Type 0} (expiration : Option ℕ) (now caller : ℕ) (events : List (Event T))
    → (happen_all events (fail 0 (get caller (new expiration now)))).inner ≡ inflight 0
happen_all-fail {T} expiration now caller events =
    (happen_all-IsStuck 0 events (fail 0 (get caller (new expiration now)))
      (failed-IsStuck T expiration now caller)).0
