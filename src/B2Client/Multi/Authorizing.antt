-- ===== src/B2Client/Multi/Authorizing.antt =====
-- When the keys of services/b2-client/src/multi.rs are exchanged for authorizations.
use emporium.Prelude.{
  ◌≡◌, refl, ◌∙◌, ap, String, Option, none, some, List, [], ◌∷◌, Result, ok, err, inl, inr,
  Bool-cases, ◌==◌, ==_refl, string_eq,
}
use mathlib.Core.Path.{subst}
use emporium.Prelude.Actions.{Action, Fault, failed, panicked, diverged, map_fail, ◌>>=◌}
use emporium.Std.HashMap.{get, insert, get-insert}
use emporium.B2Client.Errors.{AuthenticationErrorKind}
use emporium.B2Client.Application.{B2ApplicationKey, B2Authorization}
use emporium.B2Client.Remote.{B2Client, Service, World, from_client_and_authorization}
use emporium.B2Client.Driver.{DriverError}
use emporium.B2Client.Multi.{
  B2BucketStatus, Clients, Statuses, authorize_bucket_key, authorize_key, authorized, client_of,
  get_bucket_client, keep_client, key, run_client, with_client,
}

-- the bucket has a client
abbrev HasClient : String → Statuses → Type 0
HasClient bucket m = (client : B2Client) × (get bucket m ≡ some (authorized client))

insert-HasClient :
    (bucket b : String) (client : B2Client) (m : Statuses)
    → HasClient bucket m
    → HasClient bucket (insert b (authorized client) m)
insert-HasClient bucket b client m (old, h) = elim (Bool-cases (b == bucket)) [
  | inl e ↦ (client, get-insert b bucket (authorized client) m ∙ rw e)
  | inr e ↦ (old, get-insert b bucket (authorized client) m ∙ rw e h)
]

module _ {S : Type 0} where
  keep_client-HasClient :
      (bucket b : String) (k : B2ApplicationKey) (c : Clients S)
      (p : Result B2Authorization (Fault AuthenticationErrorKind) × S)
      → HasClient bucket c.buckets
      → HasClient bucket (keep_client b k c p).1.buckets
  unfolding keep_client
  keep_client-HasClient bucket b k c (err e, s) h = h
  keep_client-HasClient bucket b k c (ok auth, s) h = insert-HasClient bucket b _ c.buckets h

  keep_client-ok :
      (bucket : String) (k : B2ApplicationKey) (c d : Clients S)
      (p : Result B2Authorization (Fault AuthenticationErrorKind) × S) (client : B2Client)
      → keep_client bucket k c p ≡ (ok client, d)
      → HasClient bucket d.buckets
  unfolding keep_client
  keep_client-ok bucket k c d (err e, s) client h = cc
  keep_client-ok bucket k c d (ok auth, s) client h =
      subst (λ (e : Clients S). HasClient bucket e.buckets) (ap (λ q. q.1) h)
        (
          from_client_and_authorization auth k,
          get-insert bucket bucket _ c.buckets ∙ rw (==_refl bucket),
        )

module _ {H S : Type 0} (env : Service H S) where
  -- actions of the driver, one after the other
  abbrev pub Calls : Type 0
  Calls = List (String × Action (World S) (Unit {0}) DriverError)

  unfoldable pub run_calls : Calls → Clients S → Clients S
  unfolding with_client
  run_calls [] c = c
  run_calls ((bucket, method) ∷ calls) c = run_calls calls (with_client env bucket method c).1

  authorize_key-HasClient :
      (bucket b : String) (k : B2ApplicationKey) (c : Clients S)
      → HasClient bucket c.buckets
      → HasClient bucket (authorize_key env b k c).1.buckets
  unfolding authorize_key
  authorize_key-HasClient bucket b k c h = keep_client-HasClient bucket b k c _ h

  client_of-HasClient :
      (bucket b : String) (status : Option B2BucketStatus) (c : Clients S)
      → HasClient bucket c.buckets
      → HasClient bucket (client_of env b status c).1.buckets
  unfolding client_of
  client_of-HasClient bucket b none c h = h
  client_of-HasClient bucket b (some (authorized client)) c h = h
  client_of-HasClient bucket b (some (key k)) c h = authorize_key-HasClient bucket b k c h

  with_client-HasClient :
      {A : Type 0} (bucket b : String) (method : Action (World S) A DriverError) (c : Clients S)
      → HasClient bucket c.buckets
      → HasClient bucket (with_client env b method c).1.buckets
  unfolding with_client get_bucket_client run_client
  with_client-HasClient {A} bucket b method c h =
      split (client_of env b (get b c.buckets) c)
        (client_of-HasClient bucket b (get b c.buckets) c h)
    where
      split :
          (p : Result B2Client (Fault AuthenticationErrorKind) × Clients S)
          → HasClient bucket p.1.buckets
          → HasClient bucket
              ((map_fail authorize_bucket_key (λ _. p) >>= run_client env b method) c).1.buckets
      split (ok client, d) h' = insert-HasClient bucket b _ d.buckets h'
      split (err (failed e), d) h' = h'
      split (err panicked, d) h' = h'
      split (err diverged, d) h' = h'

  run_calls-HasClient :
      (bucket : String) (calls : Calls) (c : Clients S)
      → HasClient bucket c.buckets
      → HasClient bucket (run_calls calls c).buckets
  unfolding run_calls
  run_calls-HasClient bucket [] c h = h
  run_calls-HasClient bucket ((b, method) ∷ calls) c h =
      run_calls-HasClient bucket calls (with_client env b method c).1
        (with_client-HasClient bucket b method c h)

  client_of-ok :
      (bucket : String) (status : Option B2BucketStatus) (c d : Clients S) (client : B2Client)
      → get bucket c.buckets ≡ status
      → client_of env bucket status c ≡ (ok client, d)
      → HasClient bucket d.buckets
  unfolding client_of authorize_key
  client_of-ok bucket none c d client g h = cc
  client_of-ok bucket (some (authorized old)) c d client g h =
      subst (λ (e : Clients S). HasClient bucket e.buckets) (ap (λ q. q.1) h) (old, g)
  client_of-ok bucket (some (key k)) c d client g h = keep_client-ok bucket k c d _ client h

  -- Once `get_bucket_client` has given a client of a bucket, it gives one at once, with nothing
  -- sent and nothing changed, whatever actions of any buckets have been made since.
  pub get_bucket_client-run_calls :
      (bucket : String) (c d : Clients S) (client : B2Client) (calls : Calls)
      → get_bucket_client env bucket c ≡ (ok client, d)
      → (later : B2Client) × (get_bucket_client env bucket (run_calls calls d)
          ≡ (ok later, run_calls calls d))
  unfolding get_bucket_client client_of
  get_bucket_client-run_calls bucket c d client calls e =
      let (later, h) =
        run_calls-HasClient bucket calls d
          (client_of-ok bucket (get bucket c.buckets) c d client refl e) in
      (later, ap (λ status. client_of env bucket status (run_calls calls d)) h)
