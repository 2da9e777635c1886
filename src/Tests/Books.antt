-- ===== src/Tests/Books.antt =====
-- A book of two paths that is deleted, and the data shared with the tests of shelves.
use emporium.Prelude.{
  ℕ, ◌≡◌, refl, String, true, ◌&&◌, some, none, ok, List, [], ◌∷◌, ◌==◌, string_eq, list_eq,
  if◌then◌else◌,
}
use emporium.Std.Ord.{nat_ord}
use emporium.Std.Path.{FilePath, component_eq, normal}
use emporium.Storage.{Storage}
use emporium.Std.HashMap
use emporium.Std.BTreeMap
use emporium.Storage.Contract.{is_some}
use emporium.Storage.Memory.{MemoryStorage, driver}
use emporium.Storage.Memory.Contents.{contents, has_bucket, memory-IsStore}
use emporium.Bookshelf.Volume.{book, VolumeConfig, book_delete, new_volume}
use emporium.Bookshelf.Shelf.Deletion.{book_delete-contents, is_target, keys_below}

abbrev pub storage : Storage MemoryStorage
storage = record { driver = driver }

abbrev pub prefix : FilePath
prefix = normal "prefix" ∷ []

abbrev pub epoch : ℕ
epoch = 20200101

abbrev pub config : VolumeConfig MemoryStorage
config = record { storage = storage; bucket = "bucket"; prefix = some prefix }

abbrev one_name : FilePath
one_name = normal "shelf" ∷ []

abbrev two_paths : List FilePath
two_paths = (normal "20200101" ∷ normal "foo" ∷ []) ∷ (normal "20200101" ∷ normal "bar" ∷ []) ∷ []

-- the objects of the two paths, and another
abbrev pub three_objects : MemoryStorage
three_objects = record {
  buckets =
      (
        "bucket",
        (
          normal "prefix" ∷ normal "shelf" ∷ normal "20200101" ∷ normal "foo" ∷ [],
          record { created = 0; data_bytes = 1 ∷ [] },
        )
            ∷ (
              normal "prefix" ∷ normal "shelf" ∷ normal "20200101" ∷ normal "bar" ∷ [],
              record { created = 0; data_bytes = 2 ∷ [] },
            )
            ∷ (
              normal "prefix" ∷ normal "20200101" ∷ normal "foo" ∷ [],
              record { created = 0; data_bytes = 3 ∷ [] },
            )
            ∷ [],
      )
      ∷ [];
  clock = 0;
}

has_objects : has_bucket "bucket" three_objects ≡ true
unfolding has_bucket HashMap.get is_some
has_objects = refl

filed_paths : BTreeMap.get epoch ((epoch, two_paths) ∷ []) ≡ some two_paths
unfolding BTreeMap.get
filed_paths = refl

book_delete-contents_example :
    ((book_delete
        (book (new_volume config one_name ((epoch, two_paths) ∷ [])) epoch)
        three_objects).0
      ≡ ok tt)
    × ((c : String) (q : FilePath)
        → contents c q
            (book_delete
              (book (new_volume config one_name ((epoch, two_paths) ∷ [])) epoch)
              three_objects).1
          ≡ (if "bucket" == c && is_target q (keys_below prefix one_name two_paths)
              then none
              else contents c q three_objects))
book_delete-contents_example =
    book_delete-contents config one_name ((epoch, two_paths) ∷ []) epoch two_paths contents
      has_bucket three_objects memory-IsStore has_objects tt filed_paths (tt, (tt, tt))
