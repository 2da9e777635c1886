-- ===== src/Echocache/Values.antt =====
-- The values that callers of echocache/src/lib.rs are given.
use emporium.Prelude.{
  ℕ, ◌+◌, ◌≡◌, refl, sym, Bool, true, false, List, [], ◌∷◌, ◌++◌, map, nat_beq, All, Bool-cases,
  inl, inr, if◌then◌else◌,
}
use mathlib.Core.Path.{subst}
use emporium.Echocache.{
  Cached, Event, InnerCache, Stage, Task, cached, empty, fetching, finish, finish_tasks, finishes,
  get, gets, handle, happen, happen_all, inflight, inner_with_value, is_fetching, is_fresh,
  new_task, passes, send, send_tasks, sending, sends, sent, start, will_write,
}
use emporium.Echocache.Answers.{asked, fetched, gets_of, gets_of-happen_all}

module _ {T : Type 0} (P : T → Type 0) where
  -- the values of a cache are among those of `P`: the cached one, those about to be sent, and those
  -- that were given
  abbrev IsInnerOf : InnerCache T → Type 0
  IsInnerOf empty = Unit
  IsInnerOf (inflight r) = Unit
  IsInnerOf (cached value expires) = P value

  abbrev IsStageOf : Stage T → Type 0
  IsStageOf fetching = Unit
  IsStageOf (sending value) = P value

  abbrev AreTasksOf : List (Task T) → Type 0
  AreTasksOf = All (λ task. IsStageOf task.stage)

  abbrev pub AreAnswersOf : List (ℕ × T) → Type 0
  AreAnswersOf = All (λ (caller, value). P value)

  pub record Holds (c : Cached T) : Type 0 where
    pub inner_holds : IsInnerOf c.inner
    pub tasks_hold : AreTasksOf c.tasks
    pub answers_hold : AreAnswersOf c.answers

  handle-AreTasksOf :
      (r k : ℕ) (w : Bool) (tasks : List (Task T))
      → AreTasksOf tasks
      → AreTasksOf (handle r w k tasks)
  unfolding handle new_task
  handle-AreTasksOf r k w [] h = (tt, tt)
  handle-AreTasksOf r k w (t ∷ tasks) (h, hs) = elim (Bool-cases (nat_beq t.request r)) [
    | inl e ↦ rw e (h, hs)
    | inr e ↦ rw e (h, handle-AreTasksOf r k w tasks hs)
  ]

  finish_tasks-AreTasksOf :
      (r : ℕ) (v : T) (tasks : List (Task T))
      → P v
      → AreTasksOf tasks
      → AreTasksOf (finish_tasks r v tasks)
  unfolding finish_tasks
  finish_tasks-AreTasksOf r v [] p h = tt
  finish_tasks-AreTasksOf r v (t ∷ tasks) p (h, hs) = elim (Bool-cases (nat_beq t.request r)) [
    | inl e ↦ rw e (p, finish_tasks-AreTasksOf r v tasks p hs)
    | inr e ↦ rw e (h, finish_tasks-AreTasksOf r v tasks p hs)
  ]

  append-AreAnswersOf :
      (xs ys : List (ℕ × T)) → AreAnswersOf xs → AreAnswersOf ys → AreAnswersOf (xs ++ ys)
  append-AreAnswersOf [] ys h k = k
  append-AreAnswersOf (x ∷ xs) ys (h, hs) k = (h, append-AreAnswersOf xs ys hs k)

  map-AreAnswersOf :
      (v : T) (callers : List ℕ) → P v → AreAnswersOf (map (λ caller. (caller, v)) callers)
  map-AreAnswersOf v [] p = tt
  map-AreAnswersOf v (k ∷ callers) p = (p, map-AreAnswersOf v callers p)

  -- what the first of the tasks leaves and what it sends
  first-AreOf :
      (r : ℕ) (t : Task T) (stage : Stage T) (tasks : List (Task T))
      → t.stage ≡ stage
      → IsStageOf stage
      → AreTasksOf (send_tasks r tasks) × AreAnswersOf (sent r tasks)
      → AreTasksOf (send_tasks r (t ∷ tasks)) × AreAnswersOf (sent r (t ∷ tasks))
  unfolding send_tasks sent
  first-AreOf r t fetching tasks e h (hs, ks) = elim (Bool-cases (nat_beq t.request r)) [
    | inl f ↦ rw (f, e) ((subst IsStageOf (sym e) h, hs), ks)
    | inr f ↦ rw f ((subst IsStageOf (sym e) h, hs), ks)
  ]
  first-AreOf r t (sending v) tasks e h (hs, ks) = elim (Bool-cases (nat_beq t.request r)) [
    | inl f ↦
        rw (f, e)
          (
            hs,
            append-AreAnswersOf (map (λ caller. (caller, v)) t.waiters) (sent r tasks)
                (map-AreAnswersOf v t.waiters h) ks,
          )
    | inr f ↦ rw f ((subst IsStageOf (sym e) h, hs), ks)
  ]

  send-AreOf :
      (r : ℕ) (tasks : List (Task T))
      → AreTasksOf tasks
      → AreTasksOf (send_tasks r tasks) × AreAnswersOf (sent r tasks)
  unfolding send_tasks sent
  send-AreOf r [] h = (tt, tt)
  send-AreOf r (t ∷ tasks) (h, hs) = first-AreOf r t t.stage tasks refl h (send-AreOf r tasks hs)

  get-Holds :
      (k : ℕ) (c : Cached T) (inner : InnerCache T) → c.inner ≡ inner → Holds c → Holds (get k c)
  unfolding get start
  get-Holds k c empty e h = rw e (record {
    inner_holds = tt;
    tasks_hold = handle-AreTasksOf c.next_request k true c.tasks h.tasks_hold;
    answers_hold = h.answers_hold;
  })
  get-Holds k c (inflight r) e h = rw e (record {
    inner_holds = tt;
    tasks_hold = handle-AreTasksOf r k false c.tasks h.tasks_hold;
    answers_hold = h.answers_hold;
  })
  get-Holds k c (cached value expires) e h = elim (Bool-cases (is_fresh expires c.now)) [
    | inl f ↦
        rw (e, f)
          (record {
            inner_holds = subst IsInnerOf e h.inner_holds;
            tasks_hold = h.tasks_hold;
            answers_hold = (subst IsInnerOf e h.inner_holds, h.answers_hold);
          })
    | inr f ↦
        rw (e, f)
          (record {
            inner_holds = tt;
            tasks_hold = handle-AreTasksOf c.next_request k true c.tasks h.tasks_hold;
            answers_hold = h.answers_hold;
          })
  ]

  finish-Holds : (r : ℕ) (v : T) (c : Cached T) → P v → Holds c → Holds (finish r v c)
  unfolding finish inner_with_value
  finish-Holds r v c p h = elim (Bool-cases (is_fetching r c.tasks)) [
    | inr e ↦ rw e h
    | inl e ↦ rw e (record {
      inner_holds = written (will_write r c.tasks);
      tasks_hold = finish_tasks-AreTasksOf r v c.tasks p h.tasks_hold;
      answers_hold = h.answers_hold;
    })
  ]
    where
      written :
          (b : Bool) → IsInnerOf (if b then inner_with_value v c.expiration c.now else c.inner)
      written true = p
      written false = h.inner_holds

  happen-Holds :
      (event : Event T) (c : Cached T)
      → All P (fetched (event ∷ []))
      → Holds c
      → Holds (happen event c)
  unfolding happen send
  happen-Holds (gets k) c p h = get-Holds k c c.inner refl h
  happen-Holds (finishes r v) c p h = finish-Holds r v c p.0 h
  happen-Holds (sends r) c p h =
      let (tasks, answers) = send-AreOf r c.tasks h.tasks_hold in
      record {
        inner_holds = h.inner_holds;
        tasks_hold = tasks;
        answers_hold = append-AreAnswersOf (sent r c.tasks) c.answers answers h.answers_hold;
      }
  happen-Holds (passes n) c p h = record {
    inner_holds = h.inner_holds;
    tasks_hold = h.tasks_hold;
    answers_hold = h.answers_hold;
  }

  happen_all-Holds :
      (events : List (Event T)) (c : Cached T)
      → All P (fetched events)
      → Holds c
      → Holds (happen_all events c)
  unfolding happen_all
  happen_all-Holds [] c p h = h
  happen_all-Holds (gets k ∷ events) c p h =
      happen_all-Holds events (happen (gets k) c) p (happen-Holds (gets k) c tt h)
  happen_all-Holds (finishes r v ∷ events) c p h =
      happen_all-Holds events (happen (finishes r v) c) p.1
        (happen-Holds (finishes r v) c (p.0, tt) h)
  happen_all-Holds (sends r ∷ events) c p h =
      happen_all-Holds events (happen (sends r) c) p (happen-Holds (sends r) c tt h)
  happen_all-Holds (passes n ∷ events) c p h =
      happen_all-Holds events (happen (passes n) c) p (happen-Holds (passes n) c tt h)

  -- Every get of a caller is answered once or waits, and every answer is a value that was fetched:
  -- after any events, of which none is a clear and no fetch panics, the answers that each caller has
  -- been given and its gets that wait are as many as its gets among the events and those before; and
  -- what holds of the values with which fetches end, and of those that the cache had, holds of every
  -- answer.
  pub gets_of-answers :
      (events : List (Event T)) (c : Cached T)
      → All P (fetched events)
      → Holds c
      → ((k : ℕ) → gets_of k (happen_all events c) ≡ asked k events + gets_of k c)
        × AreAnswersOf (happen_all events c).answers
  gets_of-answers events c p h =
      (λ k. gets_of-happen_all k events c, (happen_all-Holds events c p h).answers_hold)
