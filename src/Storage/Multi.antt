-- ===== src/Storage/Multi.antt =====
-- storage/src/multi.rs: the storage that picks a driver by the scheme, and possibly the bucket, of a
-- URI. Its drivers share the state `S`.
pub mod Dispatch
pub mod Objects
use emporium.Prelude.{
  ◌≡◌, ◌↔◌, String, Bool, true, false, not, ◌&&◌, Option, none, some, List, [], ◌∷◌, Result, ok,
  err, ◌>>=◌, ok_or, arith, Eq, ◌==◌, ==_iff, string_eq, option_eq, if◌then◌else◌,
}
use mathlib.Core.Option.{get_or}
use emporium.Std.HashMap
use emporium.Std.HashMap.{HashMap}
use emporium.Std.Path.{FilePath}
use emporium.StorageDriver.{
  Driver, Reader, Writer, Metadata, StorageError, storage_error, driver_not_found,
}
use emporium.StorageDriver.Uri.{Uri, UriDriver, driver_uri}
use emporium.Storage.{Storage, uri}

pub record Key : Type 0 where
  pub scheme : String
  pub bucket : Option String

abbrev pub key_beq : Key → Key → Bool
key_beq a b = a.scheme == b.scheme && a.bucket == b.bucket

pub key_beq_iff : (a b : Key) → (key_beq a b ≡ true) ↔ (a ≡ b)
key_beq_iff a b = ground (arith, ==_iff a.scheme b.scheme, ==_iff a.bucket b.bucket)

instance abbrev pub key_eq : Eq Key
key_eq = record { beq = key_beq; beq_iff = key_beq_iff }

pub record MultiStorage (S : Type 0) : Type 0 where
  pub drivers : HashMap Key (Storage S)

-- the key that `add` files a driver under
abbrev pub scheme_key : String → Key
scheme_key scheme = record { scheme = scheme; bucket = none }

module _ {S : Type 0} where
  unfoldable pub new : MultiStorage S
  new = record { drivers = [] }

  -- `add`; `none` is the panic of `assert_ne!`
  unfoldable pub add : Driver S → MultiStorage S → Option (MultiStorage S)
  add driver m =
      if driver.scheme == "file"
      then none
      else some (record {
        drivers = HashMap.insert (scheme_key driver.scheme) (record { driver = driver }) m.drivers;
      })

  unfoldable pub get : MultiStorage S → Uri → Result (Option (Storage S)) StorageError
  get m url =
      let scheme = get_or url.scheme "" in
      elim (HashMap.get (record { scheme = scheme; bucket = url.host }) m.drivers) [
        | some s ↦ ok (some s)
        | none ↦ ok (HashMap.get (scheme_key scheme) m.drivers)
      ]

  -- What the macro `forward_driver!` calls: the driver of files, the `uri()` of the driver that
  -- `get` finds, or an error.
  module _ (file : UriDriver S) (m : MultiStorage S) where
    unfoldable pub route : Uri → Result (UriDriver S) StorageError
    unfolding get uri
    route url = if url.scheme == some "file" then ok file else do
      found ← get m url
      driver ← ok_or found (storage_error "multi driver" (driver_not_found (get_or url.scheme "")))
      ok (uri driver)

    unfoldable pub metadata : Uri → S → Result Metadata StorageError
    unfolding route
    metadata url s = do driver ← route url; driver.metadata url s

    unfoldable pub download : Uri → Writer → S → Result Writer StorageError
    unfolding route
    download url writer s = do driver ← route url; driver.download url writer s

    unfoldable pub upload : Uri → Reader → S → Result (Unit {0}) StorageError × S
    unfolding route
    upload url reader s = elim (route url) [
      | ok driver ↦ driver.upload url reader s
      | err e ↦ (err e, s)
    ]

    unfoldable pub list : Uri → S → Result (List FilePath) StorageError
    unfolding route
    list url s = do driver ← route url; driver.list url s

    unfoldable pub delete : Uri → S → Result (Unit {0}) StorageError × S
    unfolding route
    delete url s = elim (route url) [ ok driver ↦ driver.delete url s | err e ↦ (err e, s) ]
