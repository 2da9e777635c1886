-- ===== src/B2Client/Bucket.antt =====
-- services/b2-client/src/bucket.rs: buckets, which are cached, and listings of files
pub mod Listing
pub mod Cache
use emporium.Prelude.{
  ℕ, zero, suc, ◌≡◌, ◌*◌, String, Bool, true, false, Option, none, some, List, [], ◌∷◌, ◌++◌,
  Result, ok, err, ◌==◌, string_eq, if◌then◌else◌,
}
use mathlib.Core.Option.{get_or}
use emporium.Prelude.Actions.{
  Action, Fault, failed, pure, fail, panic, diverge, unwrap, settle, ◌>>=◌,
}
use emporium.Std.HashMap.{HashMap, insert}
use emporium.Std.HashMap
use emporium.Std.Path.{FilePath}
use emporium.Echocache.{Cached, new, clear, map_cached}
use emporium.Echocache.Alone.{get_alone}
use emporium.ApiClient.Client.{ApiClient}
use emporium.B2Client.Types.{
  Bucket, BucketId, BucketType, SelectBucket, all, by_id, by_name, BucketListBody,
  BucketListResponse, FileInfo, FileListBody, FileListResponse, bucket_list, file_list,
}
use emporium.B2Client.Errors.{B2RequestError}
use emporium.B2Client.Remote.{B2Client, BucketResult, Service, World, ask}

-- the two fields that a selection sets
unfoldable pub selected : SelectBucket → Option BucketId × Option String
selected all = (none, none)
selected (by_id id) = (some id, none)
selected (by_name name) = (none, some name)

-- `v.pop()`
unfoldable pub last : {A : Type 0} → List A → Option A
last [] = none
last (x ∷ []) = some x
last (x ∷ y ∷ xs) = last (y ∷ xs)

-- `Result::is_err`
unfoldable pub is_err : BucketResult → Bool
is_err (ok _) = false
is_err (err _) = true

-- 300 seconds in nanoseconds
abbrev pub bucket_lifetime : ℕ
bucket_lifetime = 300 * 1000000000

-- `or_insert(Cached::new(..))`
unfoldable pub entry_or_new : ℕ → Option (Cached BucketResult) → Cached BucketResult
entry_or_new now none = new (some bucket_lifetime) now
entry_or_new now (some cache) = cache

-- a cached error is cleared
unfoldable pub clear_error : Cached BucketResult → Cached BucketResult
unfolding is_err
clear_error cache = if get_or (map_cached is_err cache) false then clear cache else cache

-- the body of a listing's first request
unfoldable pub first_page : BucketId → Option String → Option String → FileListBody
first_page bucket prefix delimiter = record {
  bucket_id = bucket;
  start_file_name = none;
  max_file_count = some 1000;
  prefix = prefix;
  delimiter = delimiter;
}

-- the end of the loop's body: the files of the page, and the next page if there is one
unfoldable pub after_page :
    {T : Type 0}
    → (FileListBody → List FileInfo → Action T (List FileInfo) B2RequestError)
    → FileListBody
    → List FileInfo
    → FileListResponse
    → Action T (List FileInfo) B2RequestError
after_page loop body infos page = elim page.next_file_name [
  | none ↦ pure (infos ++ page.files)
  | some name ↦ loop (record body { start_file_name = some name }) (infos ++ page.files)
]

module _ {H S : Type 0} (env : Service H S) where
  -- `B2Client::b2_list_buckets`
  unfoldable pub b2_list_buckets :
      SelectBucket → Option (List BucketType) → Action (World S) (List Bucket) B2RequestError
  unfolding selected ask
  b2_list_buckets select filter w =
      let (id, name) = selected select in
      (ask env "b2_list_buckets"
            (bucket_list (record {
              account_id = w.b2.client.authentication.account_id;
              bucket_id = id;
              bucket_name = name;
              bucket_types = filter;
            }))
            env.json.bucket_list
          >>= λ response. pure response.buckets)
        w

  -- the loop of `b2_list_file_names`, for at most `fuel` pages
  unfoldable pub list_pages :
      ℕ → FileListBody → List FileInfo → Action (World S) (List FileInfo) B2RequestError
  unfolding ask after_page
  list_pages zero body infos = diverge
  list_pages (suc fuel) body infos =
      ask env "b2_list_file_names" (file_list body) env.json.file_list
      >>= after_page (list_pages fuel) body infos

  -- `B2Client::b2_list_file_names`
  unfoldable pub b2_list_file_names :
      BucketId → Option String → Option String → Action (World S) (List FileInfo) B2RequestError
  unfolding list_pages first_page
  b2_list_file_names bucket prefix delimiter =
      list_pages env.pages (first_page bucket prefix delimiter) []

  -- what the cache of a bucket fetches: an error is a value, and no bucket a panic
  unfoldable pub fetched :
      Result (List Bucket) (Fault B2RequestError) → Action (World S) BucketResult B2RequestError
  unfolding last
  fetched (ok buckets) = unwrap (last buckets) >>= λ bucket. pure (ok bucket)
  fetched (err (failed e)) = pure (err e)
  fetched (err fault) = settle (err fault)

  unfoldable pub fetch_bucket : String → Action (World S) BucketResult B2RequestError
  unfolding b2_list_buckets fetched
  fetch_bucket name w = let (r, w') = b2_list_buckets (by_name name) none w in fetched r w'

  -- the cache of a bucket, as `get_bucket` finds it
  unfoldable pub bucket_cache : String → World S → Cached BucketResult
  unfolding entry_or_new clear_error
  bucket_cache name w =
      let cache = entry_or_new (env.now w.remote) (HashMap.get name w.b2.buckets) in
      clear_error (record cache { now = env.now w.remote })

  -- the caches with that of a bucket replaced
  unfoldable pub put_cache : String → Cached BucketResult → World S → World S
  put_cache name cache w = record w {
    b2 = record w.b2 { buckets = insert name cache w.b2.buckets };
  }

  -- the value of the cache as the method's result
  unfoldable pub bucket_of :
      Result BucketResult (Fault B2RequestError) → Action (World S) Bucket B2RequestError
  bucket_of (ok (ok bucket)) = pure bucket
  bucket_of (ok (err e)) = fail e
  bucket_of (err fault) = settle (err fault)

  -- `B2Client::get_bucket`
  unfoldable pub get_bucket : String → Action (World S) Bucket B2RequestError
  unfolding bucket_cache put_cache bucket_of get_alone fetch_bucket
  get_bucket name w =
      let (r, cache, w') =
        get_alone (λ v. env.now v.remote) (fetch_bucket name) (bucket_cache name w) w in
      bucket_of r (put_cache name cache w')
