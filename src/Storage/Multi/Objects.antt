-- ===== src/Storage/Multi/Objects.antt =====
-- Objects behind a URI: storage/src/multi.rs over storage-driver/src/driver.rs.
use emporium.Prelude.{
  ◌≡◌, ◌≢◌, refl, ap, ◌∙◌, String, Bool, true, false, Option, none, some, List, ok, err, map_err,
  ◌==◌, ==_iff, ==_refl, string_eq, list_eq, option_eq, if◌then◌else◌, not_true,
}
use emporium.Std.Path.{FilePath, component_eq}
use emporium.StorageDriver.{
  Bytes, Driver, Reader, Writer, storage_error, write_all, path_not_found, bucket_not_found,
}
use emporium.StorageDriver.Uri.{Uri, UriDriver, driver_uri, forward, parse_url, trim_root}
use emporium.Storage.Contract.{IsStore, missing}
use emporium.Storage.Multi.{MultiStorage, delete, download, new, route, upload}
use emporium.Storage.Multi.Dispatch.{add_all, expected, last_with, route-add_all}

module _ {S : Type 0} where
  -- the same of a driver, bucket and path
  stored_and_deleted :
      (d : Driver S) (contents : String → FilePath → S → Option Bytes)
      (has_bucket : String → S → Bool) (b : String) (p : FilePath) (bytes : Bytes) (w : Writer)
      (s : S)
      → IsStore d contents has_bucket
      → ((d.upload b p (ok bytes) s).0 ≡ ok tt)
        × (d.download b p w (d.upload b p (ok bytes) s).1
            ≡ map_err (storage_error d.name) (write_all w bytes))
        × (d.download b p w (d.delete b p (d.upload b p (ok bytes) s).1).1
            ≡ err (storage_error d.name (path_not_found p)))
  unfolding missing
  stored_and_deleted d contents has_bucket b p bytes w s store =
      let t = (d.upload b p (ok bytes) s).1 in
      let kept : contents b p t ≡ some bytes =
        rw (store.upload_contents b b p p bytes s, ==_refl b, ==_refl p) refl in
      let open_bucket : has_bucket b t ≡ true =
        rw (store.upload_bucket b b p bytes s, ==_refl b) refl in
      let deleted = store.delete_contents b b p p t open_bucket in
      let gone : contents b p (d.delete b p t).1 ≡ none =
        rw (deleted.1, ==_refl b, ==_refl p) refl in
      (
        store.upload_ok b p bytes s,
        store.download_some b p w bytes t kept,
        store.download_none b p w (d.delete b p t).1 gone
            ∙ ap
                (λ h.
                  err (storage_error d.name (if h then path_not_found p else bucket_not_found b)))
                (deleted.2 ∙ open_bucket),
      )

  parse_url_ok :
      (d : Driver S) (url : Uri) (bucket : String)
      → url.scheme ≡ some d.scheme
      → url.host ≡ some bucket
      → parse_url d url ≡ ok (bucket, trim_root url.path)
  unfolding parse_url
  parse_url_ok d url bucket s h = rw (s, h, ==_refl (some d.scheme)) refl

  upload_reaches :
      (file : UriDriver S) (m : MultiStorage S) (d : Driver S) (url : Uri) (bucket : String)
      (reader : Reader) (s : S)
      → route file m url ≡ ok (driver_uri d)
      → parse_url d url ≡ ok (bucket, trim_root url.path)
      → upload file m url reader s ≡ d.upload bucket (trim_root url.path) reader s
  unfolding upload driver_uri forward
  upload_reaches file m d url bucket reader s r u = rw (r, upload, u, forward) refl

  download_reaches :
      (file : UriDriver S) (m : MultiStorage S) (d : Driver S) (url : Uri) (bucket : String)
      (w : Writer) (s : S)
      → route file m url ≡ ok (driver_uri d)
      → parse_url d url ≡ ok (bucket, trim_root url.path)
      → download file m url w s ≡ d.download bucket (trim_root url.path) w s
  unfolding download driver_uri
  download_reaches file m d url bucket w s r u = rw (r, download, u) refl

  delete_reaches :
      (file : UriDriver S) (m : MultiStorage S) (d : Driver S) (url : Uri) (bucket : String) (s : S)
      → route file m url ≡ ok (driver_uri d)
      → parse_url d url ≡ ok (bucket, trim_root url.path)
      → delete file m url s ≡ d.delete bucket (trim_root url.path) s
  unfolding delete driver_uri forward
  delete_reaches file m d url bucket s r u = rw (r, delete, u, forward) refl

  -- the driver of a URI whose scheme was added
  route_found :
      (file : UriDriver S) (ds : List (Driver S)) (m : MultiStorage S) (d : Driver S) (url : Uri)
      → add_all ds new ≡ some m
      → url.scheme ≡ some d.scheme
      → d.scheme ≢ "file"
      → last_with d.scheme none ds ≡ some d
      → route file m url ≡ ok (driver_uri d)
  unfolding expected
  route_found file ds m d url a s f l =
      let different : (d.scheme == "file") ≡ false =
        not_true (d.scheme == "file") (λ h. f ((==_iff d.scheme "file").0 h)) in
      route-add_all file ds url a ∙ rw (s, l, different) refl

  -- Where the last driver that was added with the scheme of a URI keeps the contract of a store, and
  -- the scheme is not "file", a URI with a bucket as its host reaches the object at its path, the
  -- leading slash left out: an upload succeeds, a download then writes the bytes that were uploaded,
  -- and once it is deleted there is no object at the path.
  pub upload-download-delete :
      (file : UriDriver S) (ds : List (Driver S)) (m : MultiStorage S) (d : Driver S)
      (contents : String → FilePath → S → Option Bytes) (has_bucket : String → S → Bool) (url : Uri)
      (bucket : String) (bytes : Bytes) (w : Writer) (s : S)
      → add_all ds new ≡ some m
      → last_with d.scheme none ds ≡ some d
      → d.scheme ≢ "file"
      → IsStore d contents has_bucket
      → url.scheme ≡ some d.scheme
      → url.host ≡ some bucket
      → ((upload file m url (ok bytes) s).0 ≡ ok tt)
        × (download file m url w (upload file m url (ok bytes) s).1
            ≡ map_err (storage_error d.name) (write_all w bytes))
        × (download file m url w (delete file m url (upload file m url (ok bytes) s).1).1
            ≡ err (storage_error d.name (path_not_found (trim_root url.path))))
  upload-download-delete file ds m d contents has_bucket url bucket bytes w s a l f store us uh =
      let r = route_found file ds m d url a us f l in
      let u = parse_url_ok d url bucket us uh in
      let p = trim_root url.path in
      let t = (d.upload bucket p (ok bytes) s).1 in
      rw
        (
          upload_reaches file m d url bucket (ok bytes) s r u,
          delete_reaches file m d url bucket t r u,
          download_reaches file m d url bucket w t r u,
          download_reaches file m d url bucket w (d.delete bucket p t).1 r u,
        )
        (stored_and_deleted d contents has_bucket bucket p bytes w s store)
