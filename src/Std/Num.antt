-- ===== src/Std/Num.antt =====
-- Texts of numbers. `usize::from_str` wants an optional `+`, at least one decimal digit, and no overflow of 64 bits.
use Prim.Native.Char.{code}
use Prim.Native.String as Text
use emporium.Prelude.{
  ℕ, zero, suc, ◌+◌, ◌-◌, ◌*◌, ◌/◌, ◌%◌, ◌^◌, String, Bool, ◌&&◌, Option, none, some, ltb, leb,
  nat_beq, if◌then◌else◌,
}

is_digit : ℕ → Bool
is_digit c = leb b'0' c && leb c b'9'

digits : ℕ → String → Option ℕ
unfolding is_digit
digits n Text.[] = some n
digits n (Text.◌∷◌ c s) =
    let m = n * 10 + (code c - b'0') in
    let rest = digits m s in if is_digit (code c) && ltb m (2 ^ 64) then rest else none

-- the digits, of which there must be one
some_digits : String → Option ℕ
unfolding digits
some_digits Text.[] = none
some_digits (Text.◌∷◌ c s) = digits 0 (Text.◌∷◌ c s)

unfoldable pub parse_usize : String → Option ℕ
unfolding some_digits
parse_usize Text.[] = none
parse_usize (Text.◌∷◌ c s) =
    if nat_beq (code c) b'+' then some_digits s else some_digits (Text.◌∷◌ c s)

-- `Display for usize`: the decimal digits, of which `n` has at most `n` and one
decimals : ℕ → ℕ → String → String
decimals zero n s = s
decimals (suc fuel) n s =
    let front = decimals fuel (n / 10) (Text.◌∷◌ (Text.char_at "0123456789" (n % 10)) s) in
    if ltb n 10 then Text.◌∷◌ (Text.char_at "0123456789" n) s else front

unfoldable pub to_decimal : ℕ → String
unfolding decimals
to_decimal n = decimals (suc n) n Text.[]
