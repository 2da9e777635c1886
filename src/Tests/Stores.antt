-- ===== src/Tests/Stores.antt =====
-- The driver in memory, behind the storage that picks a driver by URI.
use emporium.Prelude.{
  ◌≡◌, ◌≢◌, refl, some, none, ok, err, List, [], ◌∷◌, map_err, ==_iff, string_eq, true,
}
use mathlib.Core.Bool.{false≢true}
use emporium.Std.Path.{normal, root_dir}
use emporium.StorageDriver.{Driver, Writer, path_not_found, storage_error, write_all}
use emporium.StorageDriver.Uri.{Uri, UriDriver, driver_uri, trim_root}
use emporium.Storage.Memory.{MemoryStorage, driver}
use emporium.Storage.Memory.Contents.{contents, has_bucket, memory-IsStore}
use emporium.Storage.Multi.{MultiStorage, new, add, scheme_key, route, upload, download, delete}
use emporium.Storage.Multi.Dispatch.{add_all, expected, last_with, route-add_all}
use emporium.Storage.Multi.Objects.{upload-download-delete}

abbrev drivers : List (Driver MemoryStorage)
drivers = driver ∷ []

abbrev one_driver : MultiStorage MemoryStorage
one_driver = record { drivers = (scheme_key "memory", record { driver = driver }) ∷ [] }

abbrev note_url : Uri
note_url = record {
  scheme = some "memory";
  host = some "notes";
  path = root_dir ∷ normal "today" ∷ [];
}

abbrev idle_writer : Writer
idle_writer = record { written = []; accepts = true }

abbrev start : MemoryStorage
start = record { buckets = []; clock = 0 }

adds : add_all drivers new ≡ some one_driver
unfolding add_all add new emporium.Std.HashMap.insert
adds = refl

-- in place of the driver of files
abbrev no_files : UriDriver MemoryStorage
no_files = driver_uri driver

route-add_all_example :
    route no_files one_driver note_url
    ≡ expected no_files note_url (last_with "memory" none drivers)
route-add_all_example = route-add_all no_files drivers note_url adds

is_last : last_with "memory" none drivers ≡ some driver
unfolding last_with
is_last = refl

not_file : driver.scheme ≢ "file"
not_file = λ h. false≢true ((==_iff driver.scheme "file").1 h)

upload-download-delete_example :
    ((upload no_files one_driver note_url (ok (7 ∷ 8 ∷ [])) start).0 ≡ ok tt)
    × (download no_files one_driver note_url idle_writer
          (upload no_files one_driver note_url (ok (7 ∷ 8 ∷ [])) start).1
        ≡ map_err (storage_error "memory") (write_all idle_writer (7 ∷ 8 ∷ [])))
    × (download no_files one_driver note_url idle_writer
          (delete no_files one_driver note_url
            (upload no_files one_driver note_url (ok (7 ∷ 8 ∷ [])) start).1).1
        ≡ err (storage_error "memory" (path_not_found (trim_root note_url.path))))
upload-download-delete_example =
    upload-download-delete no_files drivers one_driver driver contents has_bucket note_url "notes"
      (7 ∷ 8 ∷ []) idle_writer start adds is_last not_file memory-IsStore refl refl
