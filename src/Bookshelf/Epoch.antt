-- ===== src/Bookshelf/Epoch.antt =====
-- bookshelf/src/epoch.rs: epochs, and the selectors that pick one from a tree of epochs.
pub mod Selection
pub mod Parsing
use mathlib.Core.List.{reverse}
use emporium.Prelude.{
  ℕ, String, Bool, true, false, Option, none, some, List, [], ◌∷◌, Result, ok, err, map_ok, ok_or,
  map_err, ◌==◌, string_eq, ltb, get_elem?, if◌then◌else◌,
}
use emporium.Chrono.{Calendar}
use emporium.Std.Ord.{Ord}
use emporium.Std.BTreeMap.{BTreeMap, get, keys}
use emporium.Std.Num.{parse_usize}

pub record InvalidEpoch : Type 0 where
  pub value : String

pub data EpochSelector (Epoch : Type 0) : Type 0 where
  earliest : EpochSelector Epoch
  latest : EpochSelector Epoch
  exact : Epoch → EpochSelector Epoch
  nth : ℕ → EpochSelector Epoch

-- `Iterator::next` and `Iterator::last` of an iterator over `l`
unfoldable pub next {ℓ} : {A : Type ℓ} → List A → Option A
next [] = none
next (x ∷ xs) = some x

unfoldable pub last {ℓ} : {A : Type ℓ} → List A → Option A
last [] = none
last (x ∷ []) = some x
last (x ∷ y ∷ xs) = last (y ∷ xs)

module _ {Epoch : Type 0} (cal : Calendar Epoch) where
  -- `impl FromStr for Epoch`
  unfoldable pub epoch_from_str : String → Result Epoch InvalidEpoch
  epoch_from_str s = ok_or (cal.parse_from_str s) (record { value = s })

  -- the guard of the `nth` arm: `nth.parse::<usize>().map(|v| v < 1000).unwrap_or(false)`
  unfoldable pub is_nth : Option ℕ → Bool
  is_nth none = false
  is_nth (some v) = ltb v 1000

  -- `impl FromStr for EpochSelector`
  unfoldable pub selector_from_str : String → Result (EpochSelector Epoch) InvalidEpoch
  unfolding epoch_from_str is_nth
  selector_from_str s =
      if s == "earliest"
      then ok earliest
      else if s == "latest"
      then ok latest
      else if is_nth (parse_usize s)
      then map_ok nth (ok_or (parse_usize s) (record { value = s }))
      else map_ok exact (epoch_from_str s)

-- `impl From<Option<Epoch>> for EpochSelector`
unfoldable pub selector_from_option : {Epoch : Type 0} → Option Epoch → EpochSelector Epoch
selector_from_option none = latest
selector_from_option (some epoch) = exact epoch

module _ {Epoch V : Type 0} ⦃o : Ord Epoch⦄ where
  -- `EpochSelector::find`
  unfoldable pub find : EpochSelector Epoch → BTreeMap Epoch V → Option Epoch
  unfolding next last
  find earliest epochs = next (keys epochs)
  find latest epochs = last (keys epochs)
  find (exact epoch) epochs = elim (get epoch epochs) [ none ↦ none | some _ ↦ some epoch ]
  find (nth n) epochs = get_elem? (reverse (keys epochs)) n
