-- ===== src/Tests/Epochs.antt =====
-- Selectors at a tree of three epochs and at texts.
use emporium.Prelude.{ℕ, ◌≡◌, ◌≢◌, ◌↔◌, ◌<◌, some, ok, [], ◌∷◌, true, false, String, refl}
use emporium.Std.Ord.{nat_ord, ◌≼◌}
use emporium.Std.Num.{parse_usize}
use emporium.Std.BTreeMap.{BTreeMap, contains_key}
use emporium.Bookshelf.Epoch.{find, nth, latest, earliest, exact, is_nth, selector_from_str}
use emporium.Bookshelf.Epoch.Selection.{count_after, find-nth_iff, find-latest, find-earliest_iff}
use emporium.Bookshelf.Epoch.Parsing.{selector_from_str_cases}
use emporium.Tests.Data.{calendar}

abbrev three_epochs : BTreeMap ℕ ℕ
three_epochs = (20200101, 1) ∷ (20200102, 2) ∷ (20200301, 3) ∷ []

find-nth_iff_example :
    (find (nth 1) three_epochs ≡ some 20200102)
    ↔ ((contains_key 20200102 three_epochs ≡ true) × (count_after 20200102 three_epochs ≡ 1))
find-nth_iff_example =
    find-nth_iff 1 20200102 three_epochs ((refl, (refl, tt)), ((refl, tt), (tt, tt)))

find-latest_example : find latest three_epochs ≡ find (nth 0) three_epochs
find-latest_example = find-latest three_epochs

find-earliest_iff_example : (find earliest three_epochs ≡ some 20200101) ↔ (
    (contains_key 20200101 three_epochs ≡ true)
    × ((x : ℕ) → contains_key x three_epochs ≡ true → 20200101 ≼ x))
find-earliest_iff_example =
    find-earliest_iff 20200101 three_epochs ((refl, (refl, tt)), ((refl, tt), (tt, tt)))

abbrev twelve : String
twelve = "12"

abbrev first_word : String
first_word = "earliest"

abbrev last_word : String
last_word = "latest"

selector_from_str_cases_example :
    ((selector_from_str calendar twelve ≡ ok (nth 12)) ↔ (
      (parse_usize twelve ≡ some 12) × (12 < 1000) × (twelve ≢ first_word) × (twelve ≢ last_word)))
    × ((selector_from_str calendar twelve ≡ ok (exact 20200101)) ↔ (
        (calendar.parse_from_str twelve ≡ some 20200101)
        × (is_nth calendar (parse_usize twelve) ≡ false)
        × (twelve ≢ first_word)
        × (twelve ≢ last_word)))
selector_from_str_cases_example = selector_from_str_cases calendar twelve 12 20200101
