-- ===== src/Manifest/Paths.antt =====
-- `Path::extension`, as src/manifest/watcher.rs asks for it.
use z8s.Base.{Bool, false, not, ◌||◌, Option, none, some, List, [], ◌∷◌, if◌then◌else◌}
use z8s.Base.Text.{Text, codes, text_eq}
use z8s.Base.Text.Split.{split}

-- Whether a part of a path is a component: an empty part and `.` are not.
abbrev is_component : Text → Bool
is_component part = not (text_eq part [] || text_eq part (codes "."))

abbrev later_or : Option Text → Text → Option Text
later_or (some p) part = some p
later_or none part = if is_component part then some part else none

unfoldable pub last_component : List Text → Option Text
last_component [] = none
last_component (part ∷ parts) = later_or (last_component parts) part

abbrev pub last_of : Text → List Text → Text
last_of part [] = part
last_of part (p ∷ ps) = last_of p ps

-- What follows the last dot, unless that is the first byte of the name.
abbrev pub after_dot : List Text → Option Text
after_dot [] = none
after_dot (part ∷ []) = none
after_dot ([] ∷ p ∷ []) = none
after_dot (part ∷ p ∷ ps) = some (last_of p ps)

abbrev pub extension_of : Option Text → Option Text
extension_of none = none
extension_of (some name) = if text_eq name (codes "..") then none else after_dot (split b'.' name)

-- `path.extension()`.
unfoldable pub extension : Text → Option Text
unfolding last_component split
extension path = extension_of (last_component (split b'/' path))

abbrev pub is_yaml_ext : Option Text → Bool
is_yaml_ext none = false
is_yaml_ext (some e) = text_eq e (codes "yaml") || text_eq e (codes "yml")

-- `path.extension().map_or(false, |e| e == "yaml" || e == "yml")`.
unfoldable pub is_yaml : Text → Bool
unfolding extension
is_yaml path = is_yaml_ext (extension path)
