-- ===== src/Echocache/Alone.antt =====
-- `Cached::get` of echocache/src/lib.rs where one caller at a time asks and waits: the events of the
-- get, of its fetch and of the sending follow on each other.
use emporium.Prelude.{ℕ, ◌≡◌, refl, true, some, [], ◌∷◌, Result, ok, err, arith, leb, false}
use emporium.Prelude.Actions.{Action, Fault, panicked}
use emporium.Echocache.{Cached, cached, empty, inflight, get, start, finish, send}
use emporium.Echocache.Failures.{fail}

module _ {S T E : Type 0} (now : S → ℕ) (fetch : Action S T E) where
  -- the value that was sent to the caller
  unfoldable pub answered : Cached T → S → Result T (Fault E) × Cached T × S
  answered c s = elim c.answers [
    | [] ↦ (err panicked, c, s)
    | (caller, value) ∷ _ ↦ (ok value, record c { answers = [] }, s)
  ]

  -- the task of the request, to its end; its panic is the caller's
  unfoldable pub run_fetch : ℕ → Cached T → S → Result T (Fault E) × Cached T × S
  unfolding answered
  run_fetch request c s =
      let (r, t) = fetch s in
      elim r [
        | ok value ↦ answered (send request (finish request value (record c { now = now t }))) t
        | err e ↦ (err e, fail request c, t)
      ]

  -- the caller has its answer at once, or waits for the request in flight
  unfoldable pub await : Cached T → S → Result T (Fault E) × Cached T × S
  unfolding run_fetch answered
  await c s = elim c.answers [
    | [] ↦ elim c.inner [ inflight request ↦ run_fetch request c s | _ ↦ (err panicked, c, s) ]
    | _ ∷ _ ↦ answered c s
  ]

  unfoldable pub get_alone : Cached T → S → Result T (Fault E) × Cached T × S
  unfolding await get
  get_alone c s = await (get 0 (record c { now = now s; answers = [] })) s

  -- a value that is not expired is given, and nothing is fetched
  pub get_alone-fresh :
      (c : Cached T) (value : T) (e : ℕ) (s : S)
      → leb (now s) e ≡ true
      → get_alone (record c { inner = cached value (some e) }) s
        ≡ (ok value, record c { inner = cached value (some e); now = now s; answers = [] }, s)
  unfolding get_alone
  get_alone-fresh c value e s h = rw h

-- a request that this caller alone waits for gives what is fetched
await-start :
    {S T E : Type 0} (now : S → ℕ) (fetch : Action S T E) (c : Cached T) (s : S)
    → (await now fetch (start 0 (record c { tasks = []; answers = [] })) s).0 ≡ (fetch s).0
unfolding await start finish send
await-start {S} {T} {E} now fetch c s = split (fetch s)
  where
    split :
        (p : Result T (Fault E) × S)
        → (await now (λ _. p) (start 0 (record c { tasks = []; answers = [] })) s).0 ≡ p.0
    split (ok value, t) = ground arith
    split (err e, t) = refl

module _ {S T E : Type 0} (now : S → ℕ) (fetch : Action S T E) where
  -- with no task at work, an empty cache and a value that has expired are fetched
  pub get_alone-empty :
      (c : Cached T) (s : S)
      → (get_alone now fetch (record c { inner = empty; tasks = [] }) s).0 ≡ (fetch s).0
  unfolding get_alone
  get_alone-empty c s = await-start now fetch (record c { inner = empty; now = now s }) s

  pub get_alone-stale :
      (c : Cached T) (value : T) (e : ℕ) (s : S)
      → leb (now s) e ≡ false
      → (get_alone now fetch (record c { inner = cached value (some e); tasks = [] }) s).0
        ≡ (fetch s).0
  unfolding get_alone
  get_alone-stale c value e s h =
      rw h (await-start now fetch (record c { inner = cached value (some e); now = now s }) s)
