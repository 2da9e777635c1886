-- ===== src/Lib.antt =====
-- Verification of emporium: storage drivers, dated collections of files in them, and the clients
-- they are reached with. The crates are modelled as functions over an explicit state.
--
-- The parts, and how they interact:
-- * storage-driver (StorageDriver): the trait `Driver` of storage-driver/src/driver.rs is a record of
--   functions over a state `S`; methods that write return the new state beside their result.
--   StorageDriver/Uri is `parse_url` and `DriverUri`.
-- * storage (Storage): `Storage` and `StorageBucket` of storage/src/lib.rs forward to a driver.
--   Storage/Memory is the driver in memory (storage/src/memory.rs), whose state is the map of its
--   buckets and the clock. Storage/Multi picks a driver by URI (storage/src/multi.rs).
--   Storage/Contract says what a client of a driver relies on.
-- * bookshelf (Bookshelf): Epoch is bookshelf/src/epoch.rs, the dates and the selectors. Expiration is
--   bookshelf/src/expiration.rs, the retention policy. Volume and Shelf are bookshelf/src/lib.rs: a
--   `Bookshelf` lists a bucket through a `Storage`, files the paths by volume and date, and keeps the
--   volumes until they are cleared; books and entries read, write and delete through the storage.
-- * api-client (ApiClient): Retry is the two retry policies (api-client/src/retry.rs), Paginate the
--   stream over a paginated response (api-client/src/paginate.rs), Uri the extension of URIs
--   (api-client/src/uri.rs), Authentication its schemes (api-client/src/authentication.rs), Response
--   what becomes of an answer (api-client/src/response.rs and error.rs), Client and Client/Builder the
--   client and its requests (api-client/src/lib.rs and request.rs). Http is what they use of the
--   crate http. Secret is secret/src/lib.rs.
-- * b2-client (B2Client, services/b2-client/src): Types are the bodies of requests and answers, Errors
--   is errors.rs, Application the key and the authorization of application.rs, Remote the client's
--   state. Over them stand Bucket (bucket.rs), File (file.rs), Download (download.rs) and Upload
--   (upload.rs), then Driver, the storage driver of client.rs, which renews an expired authorization,
--   and Multi (multi.rs), which keeps a client for each bucket and asks for one among several keys.
--   A method of the client is an action of Prelude/Actions over the client and the service.
-- * octocat (Octocat): Token is the application's token of services/octocat/src/lib.rs, with the lock
--   that a panic poisons, App its requests and the clients made for installations.
-- * linode (Linode): Types, Instances, Client, Ttl and Pagination are the data, the requests, the
--   lifetimes and the pages of services/linode/src/lib.rs.
-- * echocache (Echocache): `Cached` of echocache/src/lib.rs as a state machine. An event is what one
--   lock covers: a get, the end of a fetch, the sending of its value, or the passing of time.
--   Echocache/Alone is `get` where a single task uses the cache, as that of B2 does.
-- * Std models what the sources use of Rust's library and of camino: orders, maps, sets, paths by
--   their components on Unix, integers of 32 and 64 bits. Chrono is the interface of the calendar.
-- * Prelude has the shared names and lemmas; Tests applies each result to concrete data.
--
-- Correspondence: an `async` method is one step, since each takes its lock for its whole body or calls a
-- single driver method. A function that returns `Result` returns `Result`; a panic is an error or
-- `none`. A reader is what reading it to the end gives, a writer the bytes written and whether it takes
-- more. Texts of error reports are data. Keys of objects are paths by their components, so keys that
-- differ in doubled slashes only are one, as for `Utf8Path`; a key that starts with `.` is outside the
-- model. `try_join_all` runs the deletions in order. In the client of B2 a panic is a fault of its own,
-- apart from an error, and so is a loop that goes on past the bound. The task of a part is run to its
-- end where it is spawned, so parts are not sent at the same time. The JSON of a value is the value.
--
-- Bounds: recursion is on lists, except `collect` of the stream, which polls at most `fuel` times;
-- its result gives a fuel that is enough, and the loop of `b2_list_file_names`, which a service could
-- keep going for ever: `pages` of the service bounds it, and its result holds for any bound that is
-- large enough for the listing. `usize` and `Duration` keep their limits of 64 bits.
--
-- Parameters: the calendar (chrono), the client and the pages of a paginated API, the HTTP services
-- of B2, GitHub and Linode with the clock and the reading of JSON (serde_json), the digest (sha1), the
-- signer of tokens (jaws), header maps (http), base64, the parser of MIME types, URLs (url), and
-- the driver of local files, whose code is not part of the modelled crates.
--
-- Not modelled: local and temporary directories (file system), the client of Tailscale, the git
-- credentials of octocat, the composition of HTTP middleware, configuration,
-- logging, `Debug` and most of `Display`.
pub mod ApiClient
pub mod B2Client
pub mod Bookshelf
pub mod Chrono
pub mod Echocache
pub mod Linode
pub mod Octocat
pub mod Prelude
pub mod Secret
pub mod Std
pub mod Storage
pub mod StorageDriver
pub mod Tests
