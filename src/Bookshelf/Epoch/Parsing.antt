-- ===== src/Bookshelf/Epoch/Parsing.antt =====
-- What the parser of selectors in bookshelf/src/epoch.rs returns.
use emporium.Prelude.{ℕ, ◌<◌, ◌≡◌, ◌≢◌, ◌↔◌, String, ==_iff, string_eq, some, ok, arith, false}
use emporium.Chrono.{Calendar}
use emporium.Std.Num.{parse_usize}
use emporium.Bookshelf.Epoch.{exact, is_nth, nth, selector_from_str}

module _ {Epoch : Type 0} (cal : Calendar Epoch) where
  -- The parser gives `Nth(n)` exactly for the texts of a number `n` below 1000, and `Exact(e)` exactly
  -- for the other texts of the epoch `e`, the words "earliest" and "latest" apart.
  pub selector_from_str_cases :
      (s : String) (n : ℕ) (e : Epoch)
      → ((selector_from_str cal s ≡ ok (nth n))
          ↔ ((parse_usize s ≡ some n) × (n < 1000) × (s ≢ "earliest") × (s ≢ "latest")))
        × ((selector_from_str cal s ≡ ok (exact e)) ↔ (
            (cal.parse_from_str s ≡ some e)
            × (is_nth cal (parse_usize s) ≡ false)
            × (s ≢ "earliest")
            × (s ≢ "latest")))
  unfolding selector_from_str
  selector_from_str_cases s n e = (
    ground (arith, ==_iff s "earliest", ==_iff s "latest"),
    ground (arith, ==_iff s "earliest", ==_iff s "latest"),
  )
