-- ===== src/Storage/Multi/Dispatch.antt =====
-- Which driver a URI reaches through storage/src/multi.rs.
use emporium.Prelude.{
  ◌≡◌, refl, String, Option, none, some, List, [], ◌∷◌, Result, ok, err, arith, ◌==◌, ==_iff,
  string_eq, option_eq, Option-cases, inl, inr, if◌then◌else◌,
}
use mathlib.Core.Option.{get_or}
use emporium.Std.HashMap
use emporium.Std.HashMap.{get-insert}
use emporium.StorageDriver.{Driver, StorageError, storage_error, driver_not_found}
use emporium.StorageDriver.Uri.{Uri, UriDriver, driver_uri}
use emporium.Storage.{Storage, uri}
use emporium.Storage.Multi.{Key, key_eq, MultiStorage, scheme_key, new, add, get, route}

module _ {S : Type 0} where
  -- `add` for each of a list of drivers, in order
  unfoldable pub add_all : List (Driver S) → MultiStorage S → Option (MultiStorage S)
  add_all [] m = some m
  add_all (d ∷ ds) m = elim (add d m) [ none ↦ none | some n ↦ add_all ds n ]

  -- the last driver of a list that has a scheme
  unfoldable pub last_with : String → Option (Driver S) → List (Driver S) → Option (Driver S)
  last_with scheme found [] = found
  last_with scheme found (d ∷ ds) =
      last_with scheme (if d.scheme == scheme then some d else found) ds

  unfoldable pub stored : Option (Driver S) → Option (Storage S)
  stored none = none
  stored (some d) = some (record { driver = d })

  -- the driver found under a scheme alone, and nothing found under a bucket
  pub record Serves (m : MultiStorage S) (scheme : String) (found : Option (Driver S))
      : Type 0 where
    pub by_scheme : HashMap.get (scheme_key scheme) m.drivers ≡ stored found
    pub by_bucket :
        (bucket : String)
        → HashMap.get (record { scheme = scheme; bucket = some bucket }) m.drivers ≡ none

  add-Serves :
      (d : Driver S) (m n : MultiStorage S) (scheme : String) (found : Option (Driver S))
      → add d m ≡ some n
      → Serves m scheme found
      → Serves n scheme (if d.scheme == scheme then some d else found)
  unfolding add stored
  add-Serves d m n scheme found h v =
      let filed = get-insert {K = Key} {V = Storage S} (scheme_key d.scheme) in
      let at : Storage S = record { driver = d } in
      record {
        by_scheme = ground (arith, filed (scheme_key scheme) at m.drivers, ==_iff d.scheme scheme);
        by_bucket = λ b. ground (
          arith,
          filed (record { scheme = scheme; bucket = some b }) at m.drivers,
          v.by_bucket b,
        );
      }

  add_all-Serves :
      (ds : List (Driver S)) (m n : MultiStorage S) (scheme : String) (found : Option (Driver S))
      → add_all ds m ≡ some n
      → Serves m scheme found
      → Serves n scheme (last_with scheme found ds)
  unfolding add_all last_with
  add_all-Serves [] m n scheme found h v = let same : m ≡ n = ground arith in rw (← same) v
  add_all-Serves (d ∷ ds) m n scheme found h v = elim (Option-cases (add d m)) [
    | inl e ↦ ground arith
    | inr (k, e) ↦ add_all-Serves ds k n scheme _ (ground arith) (add-Serves d m k scheme found e v)
  ]

  -- the driver of files, or what a scheme finds
  unfoldable pub expected :
      UriDriver S → Uri → Option (Driver S) → Result (UriDriver S) StorageError
  expected file url found = if url.scheme == some "file" then ok file else elim found [
    | none ↦ err (storage_error "multi driver" (driver_not_found (get_or url.scheme "")))
    | some d ↦ ok (driver_uri d)
  ]

  -- After drivers are added in order, none of the scheme "file", a URI reaches the driver of files if
  -- its scheme is "file", and otherwise, whatever its host, the last driver added with its scheme,
  -- or the error that there is none.
  pub route-add_all :
      (file : UriDriver S) (ds : List (Driver S)) {m : MultiStorage S} (url : Uri)
      → add_all ds new ≡ some m
      → route file m url ≡ expected file url (last_with (get_or url.scheme "") none ds)
  unfolding route expected new get stored uri HashMap.get
  route-add_all file ds {m} url h =
      let v = add_all-Serves ds new m (get_or url.scheme "") none h empty in
      elim (Option-cases url.host) [
        | inl e ↦ rw (e, route) (ground (arith, v.by_scheme))
        | inr (b, e) ↦ rw (e, route) (ground (arith, v.by_scheme, v.by_bucket b))
      ]
    where
      empty : Serves new (get_or url.scheme "") none
      empty = record { by_scheme = refl; by_bucket = λ b. refl }
