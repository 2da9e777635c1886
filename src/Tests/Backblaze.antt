-- ===== src/Tests/Backblaze.antt =====
-- The client of B2 at a service of the tests.
use emporium.Prelude.{ℕ, ◌≡◌, refl, some, none, ok, err, List, [], ◌∷◌, arith}
use emporium.Prelude.Actions.{failed}
use emporium.Std.HashMap
use emporium.Std.Path.{normal}
use emporium.ApiClient.Http.{Method, Request}
use emporium.B2Client.Types.{Body, FileListBody, empty}
use emporium.B2Client.Errors.{B2Error, expired_auth_token, b2_error}
use emporium.B2Client.Application.Authorized.{IsAuthorized, apply, apply-IsAuthorized, bearer}
use emporium.B2Client.Remote.{B2Client, World, ask, refresh_authorization}
use emporium.B2Client.Bucket.{b2_list_file_names, first_page, get_bucket}
use emporium.B2Client.Bucket.Listing.{Listed, page_of, b2_list_file_names-Listed, last, more}
use emporium.B2Client.Bucket.Cache.{get_bucket-remembered}
use emporium.B2Client.Upload.Large.{Job}
use emporium.B2Client.Upload.Parts.{seen}
use emporium.B2Client.Upload.Single.{upload_inner, upload_reader}
use emporium.B2Client.Driver.{upload_source}
use emporium.B2Client.Driver.Renewal.{upload_source-expired}
use emporium.B2Client.Multi.{Clients, authorized, get_bucket_client, key}
use emporium.B2Client.Multi.Authorizing.{Calls, get_bucket_client-run_calls, run_calls}
use emporium.B2Client.Driver
use emporium.Echocache.{finish, map_cached, new, send}
use emporium.ApiClient.Authentication.{bearer_value}
use emporium.Tests.Remote.{
  Headers, api, backups, bucket_id, client, first_files, headers-IsHeaderMap, http, info, keys,
  last_files, secret, service, world,
}

abbrev at : ℕ → World ℕ
at n = record { b2 = client; remote = n }

abbrev body : FileListBody
body = record {
  bucket_id = bucket_id;
  start_file_name = none;
  max_file_count = some 1000;
  prefix = none;
  delimiter = none;
}

first_answer : page_of (service 200) body world ≡ (ok first_files, at 1)
unfolding ask
first_answer = refl

last_answer :
    page_of (service 200) (record body { start_file_name = some (normal "b" ∷ []) }) (at 1)
    ≡ (ok last_files, at 2)
unfolding ask
last_answer = refl

listed :
    Listed
      (service 200)
      (first_page bucket_id none none)
      world
      (ok (info ∷ info ∷ info ∷ []))
      (at 2)
      2
unfolding first_page
listed =
    more body world (at 1) (at 2) first_files (normal "b" ∷ []) (ok (info ∷ info ∷ [])) 1
      first_answer refl
      (last (record body { start_file_name = some (normal "b" ∷ []) }) (at 1) (at 2) last_files
        last_answer refl)

b2_list_file_names-Listed_example :
    b2_list_file_names (service 200) bucket_id none none world
    ≡ (ok (info ∷ info ∷ info ∷ []), at 2)
b2_list_file_names-Listed_example =
    b2_list_file_names-Listed (service 200) bucket_id none none world (at 2) _ 2 listed
      (omega arith)

abbrev five_bytes : List ℕ
five_bytes = 1 ∷ 2 ∷ 3 ∷ 4 ∷ 5 ∷ []

found :
    get_bucket (service 200) "backups" world
    ≡ (ok backups, (get_bucket (service 200) "backups" world).1)
unfolding get_bucket HashMap.get new map_cached send finish
found = refl

-- a bucket that has been found is given again 299 seconds later
get_bucket-remembered_example :
    ((get_bucket
        (service 200)
        "backups"
        (record (get_bucket (service 200) "backups" world).1 { remote = 299000000000 })).0
      ≡ ok backups)
    × ((get_bucket
          (service 200)
          "backups"
          (record (get_bucket (service 200) "backups" world).1 { remote = 299000000000 })).1.remote
        ≡ 299000000000)
unfolding HashMap.get
get_bucket-remembered_example =
    get_bucket-remembered (service 200) "backups" world (get_bucket (service 200) "backups" world).1
      backups refl found 299000000000 (omega arith)

abbrev expired : B2Error
expired = record { status = 401; code = expired_auth_token; message = "expired" }

abbrev after_expired : Job ℕ
after_expired = record { world = at 1; source = record { bytes = []; broken = none } }

refused :
    upload_reader
      (service 401)
      bucket_id
      (normal "a" ∷ [])
      none
      (record { world = world; source = record { bytes = five_bytes; broken = none } })
    ≡ (err (failed (b2_error expired)), after_expired)
unfolding upload_reader
refused = refl

renewed : refresh_authorization (service 401) (at 1) ≡ (ok tt, at 2)
unfolding refresh_authorization
renewed = refl

upload_source-expired_example :
    upload_source
      (service 401)
      bucket_id
      (record { bytes = five_bytes; broken = none })
      (normal "a" ∷ [])
      world
    ≡ seen (
        upload_inner
          (service 401)
          bucket_id
          (normal "a" ∷ [])
          none
          0
          (0 ∷ [])
          (record { world = at 2; source = record { bytes = []; broken = none } }))
upload_source-expired_example =
    upload_source-expired (service 401) bucket_id (normal "a" ∷ []) five_bytes world (at 2)
      after_expired expired refused refl renewed

abbrev bare : Request Headers Body
bare = record { method = Method.get; uri = api; headers = λ _. []; body = empty }

apply-IsAuthorized_example :
    IsAuthorized http
      (λ s. s)
      (some "Bearer token")
      bare
      (apply http (λ s. s) (bearer (record { token = secret "token" })) bare)
unfolding bearer_value
apply-IsAuthorized_example =
    apply-IsAuthorized http (λ s. s) headers-IsHeaderMap
      (bearer (record { token = secret "token" })) bare

abbrev one_key : Clients ℕ
one_key = record { buckets = ("backups", key keys) ∷ []; remote = 0 }

abbrev one_client : Clients ℕ
one_client = record { buckets = ("backups", authorized client) ∷ []; remote = 1 }

exchanged : get_bucket_client (service 200) "backups" one_key ≡ (ok client, one_client)
unfolding get_bucket_client HashMap.get HashMap.insert
exchanged = refl

abbrev deletion : Calls (service 200)
deletion = ("backups", Driver.delete (service 200) "backups" (normal "a" ∷ [])) ∷ []

get_bucket_client-run_calls_example :
    (later : B2Client) × (get_bucket_client
        (service 200)
        "backups"
        (run_calls (service 200) deletion one_client)
      ≡ (ok later, run_calls (service 200) deletion one_client))
get_bucket_client-run_calls_example =
    get_bucket_client-run_calls (service 200) "backups" one_key one_client client deletion exchanged
