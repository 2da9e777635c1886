-- ===== src/Std/Path/Display.antt =====
-- The text of a path, in which its components are separated by single slashes.
use emporium.Prelude.{String, Option, none, some, [], ◌∷◌}
use emporium.Std.Path.{Component, FilePath, root_dir, cur_dir, parent_dir, normal}
use emporium.Std.Text.{◌<>◌}

component_text : Component → String
component_text root_dir = ""
component_text cur_dir = "."
component_text parent_dir = ".."
component_text (normal s) = s

-- the components after the first, each behind a slash
rest_text : FilePath → String
unfolding component_text
rest_text [] = ""
rest_text (c ∷ path) = "/" <> component_text c <> rest_text path

unfoldable pub to_text : FilePath → String
unfolding component_text rest_text
to_text [] = ""
to_text (root_dir ∷ []) = "/"
to_text (c ∷ path) = component_text c <> rest_text path

-- `Utf8Path::file_name`
unfoldable pub file_name : FilePath → Option String
file_name [] = none
file_name (normal s ∷ []) = some s
file_name (c ∷ []) = none
file_name (c ∷ path) = file_name path
