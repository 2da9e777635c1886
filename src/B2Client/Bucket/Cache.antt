-- ===== src/B2Client/Bucket/Cache.antt =====
-- The cache of buckets of services/b2-client/src/bucket.rs, over that of echocache/src/lib.rs.
use emporium.Prelude.{
  ℕ, ◌+◌, ◌≡◌, refl, ◌∙◌, ap, sym, ◌≤◌, String, true, false, Option, none, some, [], Result, ok,
  err, inl, inr, Bool-cases, le→leb, leb, ==_refl, string_eq,
}
use mathlib.Core.Path.{subst}
use emporium.Prelude.Actions.{Fault, failed}
use emporium.Std.HashMap.{HashMap, insert, get-insert}
use emporium.Std.HashMap
use emporium.Echocache.{Cached, cached, empty, inflight, new, clear, map_cached, finish, send}
use emporium.Echocache.Failures.{fail}
use emporium.Echocache.Alone.{get_alone, get_alone-empty, get_alone-fresh, get_alone-stale}
use emporium.B2Client.Types.{Bucket}
use emporium.B2Client.Errors.{B2RequestError}
use emporium.B2Client.Remote.{BucketResult, Service, World}
use emporium.B2Client.Bucket.{
  bucket_cache, bucket_lifetime, bucket_of, clear_error, entry_or_new, fetch_bucket, get_bucket,
  put_cache,
}

-- the cache that holds a result, fetched at a time
abbrev kept : BucketResult → ℕ → Cached BucketResult
kept value n = record {
  inner = cached value (some (n + bucket_lifetime));
  expiration = some bucket_lifetime;
  now = n;
  tasks = [];
  next_request = 1;
  answers = [];
}

-- the cache whose fetch ended with a panic
abbrev lost : ℕ → Cached BucketResult
lost n = record {
  inner = inflight 0;
  expiration = some bucket_lifetime;
  now = n;
  tasks = [];
  next_request = 1;
  answers = [];
}

module _ {H S : Type 0} (env : Service H S) (name : String) where
  -- `get_bucket` from the entry of the bucket's cache, and from what it fetches
  abbrev from_entry :
      (World S → Result BucketResult (Fault B2RequestError) × World S)
      → World S
      → Option (Cached BucketResult)
      → Result Bucket (Fault B2RequestError) × World S
  from_entry fetch w entry =
      let cache = entry_or_new (env.now w.remote) entry in
      let (r, c, v) =
        get_alone (λ v. env.now v.remote) fetch
          (clear_error (record cache { now = env.now w.remote })) w in
      bucket_of env r (put_cache env name c v)

  -- what becomes of a fetch
  abbrev after_fetch :
      ℕ
      → Result BucketResult (Fault B2RequestError) × World S
      → Result Bucket (Fault B2RequestError) × World S
  after_fetch n (ok value, v) =
      bucket_of env (ok value) (put_cache env name (kept value (env.now v.remote)) v)
  after_fetch n (err e, v) = (err e, put_cache env name (lost n) v)

  get_bucket-new :
      (w : World S)
      → HashMap.get name w.b2.buckets ≡ none
      → get_bucket env name w ≡ after_fetch (env.now w.remote) (fetch_bucket env name w)
  unfolding get_bucket bucket_cache get_alone finish send fail map_cached new
  get_bucket-new w e = ap (from_entry (fetch_bucket env name) w) e ∙ split (fetch_bucket env name w)
    where
      split :
          (p : Result BucketResult (Fault B2RequestError) × World S)
          → from_entry (λ _. p) w none ≡ after_fetch (env.now w.remote) p
      split (ok value, v) = refl
      split (err e', v) = refl

  clear_error-kept :
      (bucket : Bucket) (n : ℕ) (now : ℕ)
      → leb now (n + bucket_lifetime) ≡ true
      → clear_error (record (kept (ok bucket) n) { now = now })
        ≡ record (kept (ok bucket) n) { now = now }
  unfolding clear_error map_cached
  clear_error-kept bucket n now h = rw h

  get_bucket-kept :
      (w : World S) (bucket : Bucket) (n : ℕ)
      → HashMap.get name w.b2.buckets ≡ some (kept (ok bucket) n)
      → leb (env.now w.remote) (n + bucket_lifetime) ≡ true
      → get_bucket env name w
        ≡ (ok bucket, put_cache env name (record (kept (ok bucket) n) { now = env.now w.remote }) w)
  unfolding get_bucket bucket_cache
  get_bucket-kept w bucket n e fresh =
      ap (from_entry (fetch_bucket env name) w) e
      ∙ ap (λ c. made (get_alone (λ v. env.now v.remote) (fetch_bucket env name) c w))
          (clear_error-kept bucket n (env.now w.remote) fresh)
      ∙ ap made (
          get_alone-fresh (λ v. env.now v.remote) (fetch_bucket env name)
            (record (kept (ok bucket) n) { now = env.now w.remote }) (ok bucket)
            (n + bucket_lifetime) w fresh)
    where
      made :
          Result BucketResult (Fault B2RequestError) × Cached BucketResult × World S
          → Result Bucket (Fault B2RequestError) × World S
      made p = bucket_of env p.0 (put_cache env name p.1 p.2)

  -- what a fetch gives the caller
  abbrev found : Result BucketResult (Fault B2RequestError) → Result Bucket (Fault B2RequestError)
  found (ok (ok bucket)) = ok bucket
  found (ok (err e)) = err (failed e)
  found (err fault) = err fault

  clear_error-failed :
      (e : B2RequestError) (n now : ℕ)
      → leb now (n + bucket_lifetime) ≡ true
      → clear_error (record (kept (err e) n) { now = now })
        ≡ record (kept (err e) n) { now = now; inner = empty }
  unfolding clear_error map_cached clear
  clear_error-failed e n now h = rw h

  clear_error-stale :
      (e : B2RequestError) (n now : ℕ)
      → leb now (n + bucket_lifetime) ≡ false
      → clear_error (record (kept (err e) n) { now = now }) ≡ record (kept (err e) n) { now = now }
  unfolding clear_error map_cached
  clear_error-stale e n now h = rw h

  get_bucket-failed :
      (w : World S) (e : B2RequestError) (n : ℕ)
      → HashMap.get name w.b2.buckets ≡ some (kept (err e) n)
      → (get_bucket env name w).0 ≡ found (fetch_bucket env name w).0
  unfolding get_bucket bucket_cache
  get_bucket-failed w e n h =
      ap (λ p. p.0) (ap (from_entry (fetch_bucket env name) w) h)
      ∙ elim (Bool-cases (leb (env.now w.remote) (n + bucket_lifetime))) [
        | inl fresh ↦
            ap made (clear_error-failed e n (env.now w.remote) fresh)
            ∙ value (
                get_alone (λ v. env.now v.remote) (fetch_bucket env name)
                  (record (kept (err e) n) { now = env.now w.remote; inner = empty }) w)
            ∙ ap found (
                get_alone-empty (λ v. env.now v.remote) (fetch_bucket env name)
                  (record (kept (err e) n) { now = env.now w.remote }) w)
        | inr stale ↦
            ap made (clear_error-stale e n (env.now w.remote) stale)
            ∙ value (
                get_alone (λ v. env.now v.remote) (fetch_bucket env name)
                  (record (kept (err e) n) { now = env.now w.remote }) w)
            ∙ ap found (
                get_alone-stale (λ v. env.now v.remote) (fetch_bucket env name)
                  (record (kept (err e) n) { now = env.now w.remote }) (err e) (n + bucket_lifetime)
                  w stale)
      ]
    where
      made : Cached BucketResult → Result Bucket (Fault B2RequestError)
      made c =
          let p = get_alone (λ v. env.now v.remote) (fetch_bucket env name) c w in
          (bucket_of env p.0 (put_cache env name p.1 p.2)).0

      value :
          (p : Result BucketResult (Fault B2RequestError) × Cached BucketResult × World S)
          → (bucket_of env p.0 (put_cache env name p.1 p.2)).0 ≡ found p.0
      value (ok (ok b), c, v) = refl
      value (ok (err e'), c, v) = refl
      value (err fault, c, v) = refl

  here :
      (b : Bucket) (v : World S)
      → HashMap.get name (put_cache env name (kept (ok b) (env.now v.remote)) v).b2.buckets
        ≡ some (kept (ok b) (env.now v.remote))
  unfolding put_cache
  here b v = get-insert name name _ v.b2.buckets ∙ rw (==_refl name)

  -- A bucket that was found when none was cached is given again until 300 seconds have passed,
  -- whatever the service has become, and nothing is sent to it.
  pub get_bucket-remembered :
      (w w' : World S) (bucket : Bucket)
      → HashMap.get name w.b2.buckets ≡ none
      → get_bucket env name w ≡ (ok bucket, w')
      → (s : S) → env.now s ≤ env.now w'.remote + bucket_lifetime
      → ((get_bucket env name (record w' { remote = s })).0 ≡ ok bucket)
        × ((get_bucket env name (record w' { remote = s })).1.remote ≡ s)
  unfolding put_cache bucket_of
  get_bucket-remembered w w' bucket new_entry first =
      after (fetch_bucket env name w) (sym (get_bucket-new w new_entry) ∙ first)
    where
      again :
          (b : Bucket) (v : World S) (s : S)
          → leb (env.now s) (env.now v.remote + bucket_lifetime) ≡ true
          → let u = record (put_cache env name (kept (ok b) (env.now v.remote)) v) { remote = s } in
            ((get_bucket env name u).0 ≡ ok b) × ((get_bucket env name u).1.remote ≡ s)
      again b v s h =
          let u = record (put_cache env name (kept (ok b) (env.now v.remote)) v) { remote = s } in
          let e = get_bucket-kept u b (env.now v.remote) (here b v) h in
          (ap (λ p. p.0) e, ap (λ p. p.1.remote) e)

      Again : Result Bucket (Fault B2RequestError) × World S → Type 0
      Again q =
          (s : S)
          → env.now s ≤ env.now q.1.remote + bucket_lifetime
          → ((get_bucket env name (record q.1 { remote = s })).0 ≡ q.0)
            × ((get_bucket env name (record q.1 { remote = s })).1.remote ≡ s)

      after :
          (p : Result BucketResult (Fault B2RequestError) × World S)
          → after_fetch (env.now w.remote) p ≡ (ok bucket, w')
          → Again (ok bucket, w')
      after (ok (ok b), v) e = subst Again e (λ s h. again b v s (le→leb _ _ h))
      after (ok (err e'), v) e = cc
      after (err fault, v) e = cc
