-- ===== src/Echocache/Answers.antt =====
-- Who has been answered by echocache/src/lib.rs and with what, and who waits.
use emporium.Prelude.{
  ℕ, suc, ◌+◌, ◌≡◌, refl, Bool, true, false, List, [], ◌∷◌, ◌++◌, map, arith, nat_beq,
  if◌then◌else◌,
}
use emporium.Echocache.{
  Cached, Event, InnerCache, Stage, Task, cached, empty, fetching, finish, finish_tasks, finishes,
  get, gets, handle, happen, happen_all, inflight, new_task, passes, send, send_tasks, sending,
  sends, sent, start,
}

-- how often a caller is in a list
abbrev pub count : ℕ → List ℕ → ℕ
count k [] = 0
count k (caller ∷ callers) =
    let rest = count k callers in if nat_beq caller k then suc rest else rest

-- how many of the events are gets of a caller, and the values with which fetches end
abbrev pub asked : {T : Type 0} → ℕ → List (Event T) → ℕ
asked k [] = 0
asked k (gets caller ∷ events) =
    let rest = asked k events in if nat_beq caller k then suc rest else rest
asked k (finishes request value ∷ events) = asked k events
asked k (sends request ∷ events) = asked k events
asked k (passes n ∷ events) = asked k events

abbrev pub fetched : {T : Type 0} → List (Event T) → List T
fetched [] = []
fetched (gets caller ∷ events) = fetched events
fetched (finishes request value ∷ events) = value ∷ fetched events
fetched (sends request ∷ events) = fetched events
fetched (passes n ∷ events) = fetched events

module _ {T : Type 0} where
  -- how many answers a caller has been given
  abbrev pub answered : ℕ → List (ℕ × T) → ℕ
  answered k answers = count k (map (λ a. a.0) answers)

  -- how often a caller waits
  unfoldable pub waiting : ℕ → List (Task T) → ℕ
  waiting k [] = 0
  waiting k (task ∷ tasks) = count k task.waiters + waiting k tasks

  -- the gets of a caller that have been answered, and those that wait
  unfoldable pub gets_of : ℕ → Cached T → ℕ
  unfolding waiting
  gets_of k c = answered k c.answers + waiting k c.tasks

  answered-append :
      (k : ℕ) (xs ys : List (ℕ × T)) → answered k (xs ++ ys) ≡ answered k xs + answered k ys
  answered-append k [] ys = omega arith
  answered-append k (x ∷ xs) ys = ground (arith, answered-append k xs ys)

  answered-map :
      (k : ℕ) (v : T) (callers : List ℕ)
      → answered k (map (λ caller. (caller, v)) callers) ≡ count k callers
  answered-map k v [] = refl
  answered-map k v (caller ∷ callers) = ground (arith, answered-map k v callers)

  waiting-handle :
      (k r caller : ℕ) (w : Bool) (tasks : List (Task T))
      → waiting k (handle r w caller tasks) ≡ count k (caller ∷ []) + waiting k tasks
  unfolding waiting handle new_task
  waiting-handle k r caller w [] = omega arith
  waiting-handle k r caller w (t ∷ tasks) = ground (arith, waiting-handle k r caller w tasks)

  waiting-finish_tasks :
      (k r : ℕ) (v : T) (tasks : List (Task T))
      → waiting k (finish_tasks r v tasks) ≡ waiting k tasks
  unfolding waiting finish_tasks
  waiting-finish_tasks k r v [] = refl
  waiting-finish_tasks k r v (t ∷ tasks) = ground (arith, waiting-finish_tasks k r v tasks)

  -- the first of the tasks to send
  waiting-send_first :
      (k r : ℕ) (t : Task T) (stage : Stage T)
      → t.stage ≡ stage
      → (tasks : List (Task T))
      → answered k (sent r tasks) + waiting k (send_tasks r tasks) ≡ waiting k tasks
      → answered k (sent r (t ∷ tasks)) + waiting k (send_tasks r (t ∷ tasks))
        ≡ waiting k (t ∷ tasks)
  unfolding waiting send_tasks sent
  waiting-send_first k r t fetching e tasks h = ground arith
  waiting-send_first k r t (sending v) e tasks h = ground (
    arith,
    answered-map k v t.waiters,
    answered-append k (map (λ caller. (caller, v)) t.waiters) (sent r tasks),
  )

  waiting-send_tasks :
      (k r : ℕ) (tasks : List (Task T))
      → answered k (sent r tasks) + waiting k (send_tasks r tasks) ≡ waiting k tasks
  unfolding waiting send_tasks sent
  waiting-send_tasks k r [] = omega arith
  waiting-send_tasks k r (t ∷ tasks) =
      waiting-send_first k r t t.stage refl tasks (waiting-send_tasks k r tasks)

  gets_of-get :
      (k caller : ℕ) (c : Cached T) (inner : InnerCache T)
      → c.inner ≡ inner
      → gets_of k (get caller c) ≡ count k (caller ∷ []) + gets_of k c
  unfolding gets_of get start
  gets_of-get k caller c empty e =
      ground (arith, waiting-handle k c.next_request caller true c.tasks)
  gets_of-get k caller c (cached value expires) e =
      ground (arith, waiting-handle k c.next_request caller true c.tasks)
  gets_of-get k caller c (inflight r) e = ground (arith, waiting-handle k r caller false c.tasks)

  gets_of-happen :
      (k : ℕ) (event : Event T) (c : Cached T)
      → gets_of k (happen event c) ≡ asked k (event ∷ []) + gets_of k c
  unfolding gets_of happen get finish send start
  gets_of-happen k (gets caller) c = gets_of-get k caller c c.inner refl
  gets_of-happen k (finishes request value) c =
      ground (arith, waiting-finish_tasks k request value c.tasks)
  gets_of-happen k (sends request) c = ground (
    arith,
    waiting-send_tasks k request c.tasks,
    answered-append k (sent request c.tasks) c.answers,
  )
  gets_of-happen k (passes n) c = omega arith

  asked-cons :
      (k : ℕ) (event : Event T) (events : List (Event T))
      → asked k (event ∷ events) ≡ asked k (event ∷ []) + asked k events
  asked-cons k (gets caller) events = ground arith
  asked-cons k (finishes request value) events = omega arith
  asked-cons k (sends request) events = omega arith
  asked-cons k (passes n) events = omega arith

  pub gets_of-happen_all :
      (k : ℕ) (events : List (Event T)) (c : Cached T)
      → gets_of k (happen_all events c) ≡ asked k events + gets_of k c
  unfolding happen_all
  gets_of-happen_all k [] c = omega arith
  gets_of-happen_all k (event ∷ events) c = omega (
    arith,
    gets_of-happen_all k events (happen event c),
    gets_of-happen k event c,
    asked-cons k event events,
  )
