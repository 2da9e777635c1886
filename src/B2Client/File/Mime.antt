-- ===== src/B2Client/File/Mime.antt =====
-- `BzMime` of services/b2-client/src/file.rs: the texts of content types. The parser of the crate
-- `mime` is a parameter, and a `Mime` the text that it is displayed as.
use emporium.Prelude.{String, Option, none, some, Result, ok, err, ◌==◌, string_eq, if◌then◌else◌}
use emporium.Std.Text.{has_char}
use emporium.B2Client.Types.{BzMime, auto, hide_marker, mime, custom}

-- `Display for BzMime`
unfoldable pub mime_to_string : BzMime → String
mime_to_string auto = "b2/x-auto"
mime_to_string hide_marker = "application/x-bz-hide-marker"
mime_to_string (mime m) = m
mime_to_string (custom s) = s

-- the texts that are no MIME type of the crate
unfoldable pub bz_from_str : String → Result BzMime String
unfolding has_char
bz_from_str s =
    if s == "application/x-bz-hide-marker"
    then ok hide_marker
    else if s == "b2/x-auto"
    then ok auto
    else if has_char b'/' s
    then ok (custom s)
    else err s

-- `BzMime::from_str`
unfoldable pub mime_from_str : (String → Option String) → String → Result BzMime String
unfolding bz_from_str
mime_from_str parse s = elim (parse s) [ some m ↦ ok (mime m) | none ↦ bz_from_str s ]
