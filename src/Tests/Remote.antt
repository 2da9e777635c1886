-- ===== src/Tests/Remote.antt =====
-- A service of B2 for the tests, whose state counts the requests: its answer to a request is the
-- number of those before, and what the texts stand for is given by number.
use emporium.Prelude.{
  ℕ, zero, suc, refl, String, true, false, none, some, List, [], ◌∷◌, ◌++◌, Result, ok, ◌==◌,
  string_eq, nat_eq, length, if◌then◌else◌,
}
use emporium.Std.Path.{normal}
use emporium.Secret.{Secret}
use emporium.ApiClient.Http.{Http, HeaderMap, IsHeaderMap, Uri}
use emporium.B2Client.Types.{
  BucketId, Bucket, all_private, FileInfo, upload, auto, FileListResponse,
}
use emporium.B2Client.Errors.{RawErrorInfo}
use emporium.B2Client.Application.{B2ApplicationKey, B2Authorization}
use emporium.B2Client.Remote.{B2Client, Json, Service, World}

-- the values of each name
abbrev pub Headers : Type 0
Headers = String → List String

abbrev pub headers : HeaderMap Headers
headers = record {
  empty = λ _. [];
  get_all = λ k h. h k;
  contains_key = λ k h. elim (h k) [ [] ↦ false | _ ∷ _ ↦ true ];
  append = λ k v h j. if k == j then h j ++ (v ∷ []) else h j;
  insert = λ k v h j. if k == j then v ∷ [] else h j;
}

abbrev pub headers-IsHeaderMap : IsHeaderMap headers
headers-IsHeaderMap = record {
  get_all-empty = λ k. refl;
  contains_key_lem = λ k h. refl;
  get_all-append = λ k j v h. refl;
  get_all-insert = λ k j v h. refl;
}

abbrev pub http : Http Headers
http = record {
  headers = headers;
  is_header_name = λ _. true;
  is_header_value = λ _. true;
  parse_path_and_query = λ s. some (record { path = s; query = none });
  are_parts = λ _. true;
}

abbrev pub secret : String → Secret
secret s = record { revealed = s }

abbrev pub api : Uri
api = record {
  scheme = some "https";
  authority = some "api.backblazeb2.test";
  path_and_query = some (record { path = "/"; query = none });
}

abbrev pub authorization : B2Authorization
authorization = record {
  account_id = secret "account";
  authorization_token = secret "token";
  api_url = api;
  download_url = api;
  recommended_part_size = 2;
}

abbrev pub keys : B2ApplicationKey
keys = record { key_id = secret "001"; key = secret "K001" }

abbrev pub bucket_id : BucketId
bucket_id = record { text = "b" }

abbrev pub backups : Bucket
backups = record { bucket_name = "backups"; bucket_id = bucket_id; bucket_type = all_private }

abbrev pub info : FileInfo
info = record {
  account_id = secret "account";
  action = upload;
  bucket_id = bucket_id;
  content_length = 1;
  content_type = auto;
  file_id = record { text = "f" };
  file_name = normal "a" ∷ [];
  upload_timestamp = 7;
}

-- the error that an authorization has expired
abbrev pub expired_info : RawErrorInfo
expired_info = record { status = 401; code = "expired_auth_token"; message = "expired" }

-- the text of an answer is empty for the first, and "later" for all others
abbrev pub text_of_answer : List ℕ → Result String String
text_of_answer (zero ∷ _) = ok ""
text_of_answer _ = ok "later"

-- a listing of two pages
abbrev pub first_files : FileListResponse
first_files = record { files = info ∷ []; next_file_name = some (normal "b" ∷ []) }

abbrev pub last_files : FileListResponse
last_files = record { files = info ∷ info ∷ []; next_file_name = none }

abbrev pub json : Json
json = record {
  bucket_list = λ _. ok (record { buckets = backups ∷ [] });
  file_list = λ s. ok (if s == "" then first_files else last_files);
  upload_info = λ _. ok (record { upload_url = api; authorization_token = secret "upload" });
  upload_file = λ _. ok (record { action = upload });
  file_info = λ _. ok info;
  authorization = λ _. ok authorization;
}

-- the first answer has a status, and all others are successes
abbrev pub status_after : ℕ → ℕ → ℕ
status_after first zero = first
status_after first (suc n) = 200

abbrev pub service : ℕ → Service Headers ℕ
service first = record {
  http = http;
  serve = λ req n. (
    ok (record {
      parts = record { status = status_after first n; headers = λ _. [] };
      body = ok (n ∷ []);
    }),
    suc n,
  );
  reading = record { from_utf8 = text_of_answer; error_info = λ _. ok expired_info };
  json = json;
  base64 = λ s. s;
  percent_encode = λ s. s;
  hex = λ _. "00";
  sha1 = λ b. length b ∷ [];
  now = λ n. n;
  timestamp_millis = λ t. some t;
  parse_mime = λ _. none;
  sleep = λ seconds n. n;
  pages = 3;
}

abbrev pub client : B2Client
client = record {
  client = record { base = api; authentication = authorization };
  keys = keys;
  buckets = [];
  uploads = record { concurrency = 4; retries = 5 };
}

abbrev pub world : World ℕ
world = record { b2 = client; remote = 0 }
