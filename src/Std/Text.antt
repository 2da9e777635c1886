-- ===== src/Std/Text.antt =====
-- What the sources call of `str`, `String` and, on the text of a path, of `Utf8Path::join`.
use Prim.Native.Char.{Char, code}
use Prim.Native.String as Text
use emporium.Prelude.{ℕ, String, Bool, true, false, ◌||◌, nat_beq, if◌then◌else◌}

infixl 65 ◌<>◌
abbrev pub ◌<>◌ : String → String → String
◌<>◌ = Text.◌++◌

-- `str::is_empty`
unfoldable pub is_empty : String → Bool
is_empty Text.[] = true
is_empty (Text.◌∷◌ c s) = false

-- `str::starts_with` and `str::contains`, of a character
unfoldable pub begins_with : ℕ → String → Bool
begins_with k Text.[] = false
begins_with k (Text.◌∷◌ c s) = nat_beq (code c) k

unfoldable pub has_char : ℕ → String → Bool
has_char k Text.[] = false
has_char k (Text.◌∷◌ c s) = nat_beq (code c) k || has_char k s

-- the last character is the one before the end of the rest
last_is : ℕ → Char → String → Bool
last_is k c Text.[] = nat_beq (code c) k
last_is k c (Text.◌∷◌ d s) = last_is k d s

-- `str::ends_with`, of a character
unfoldable pub ends_with_char : ℕ → String → Bool
unfolding last_is
ends_with_char k Text.[] = false
ends_with_char k (Text.◌∷◌ c s) = last_is k c s

-- a character in front of a text that has been trimmed at its end
trim_cons : ℕ → Char → String → String
trim_cons k c Text.[] = if nat_beq (code c) k then Text.[] else Text.◌∷◌ c Text.[]
trim_cons k c (Text.◌∷◌ d s) = Text.◌∷◌ c (Text.◌∷◌ d s)

-- `str::trim_end_matches`, of a character
unfoldable pub trim_end_matches : ℕ → String → String
unfolding trim_cons
trim_end_matches k Text.[] = Text.[]
trim_end_matches k (Text.◌∷◌ c s) = trim_cons k c (trim_end_matches k s)

-- `Utf8Path::join`: an absolute path replaces the base
unfoldable pub join_path : String → String → String
unfolding begins_with is_empty ends_with_char
join_path base path =
    if begins_with b'/' path
    then path
    else if is_empty base || ends_with_char b'/' base
    then base <> path
    else base <> "/" <> path
