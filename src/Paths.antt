-- ===== src/Paths.antt =====
-- `std::path` on Unix: a path is the list of its components, as `Path::components` gives them, and
-- paths are compared by them. `display` writes one separator between two components.
use Prim.Native.String.{compare}
use text.Mathlib.Text.{is_lt}
use gocode.Base.{
  ℕ, ltb, ◌≡◌, refl, Bool, true, false, Option, none, some, List, [], ◌∷◌, ◌++◌, String, str_eq,
  if◌then◌else◌, format, split_char, starts_with, eq_iff,
}

pub data Component : Type 0 where
  root_dir cur_dir parent_dir : Component
  normal : String → Component

abbrev pub FilePath : Type 0
FilePath = List Component

abbrev pub component_eq : Component → Component → Bool
component_eq root_dir root_dir = true
component_eq cur_dir cur_dir = true
component_eq parent_dir parent_dir = true
component_eq (normal a) (normal b) = str_eq a b
component_eq _ _ = false

-- The parts after the first: empty ones and `.` vanish.
later_parts : List String → FilePath
later_parts [] = []
later_parts (part ∷ parts) =
    let rest = later_parts parts in
    if str_eq part ""
    then rest
    else if str_eq part "."
    then rest
    else if str_eq part ".."
    then parent_dir ∷ rest
    else normal part ∷ rest

-- A leading separator is the root, and a leading `.` is kept.
first_part : List String → FilePath
first_part [] = []
first_part (part ∷ parts) =
    if str_eq part "." then cur_dir ∷ later_parts parts else later_parts (part ∷ parts)

-- `Path::new(raw).components()`.
unfoldable pub components : String → FilePath
unfolding first_part later_parts split_char
components raw =
    let parts = split_char b'/' raw in
    if starts_with raw "/" then root_dir ∷ later_parts parts else first_part parts

abbrev component_text : Component → String
component_text root_dir = ""
component_text cur_dir = "."
component_text parent_dir = ".."
component_text (normal name) = name

unfoldable pub display : FilePath → String
display [] = ""
display (root_dir ∷ []) = "/"
display (c ∷ []) = component_text c
display (c ∷ d ∷ path) = format (component_text c ∷ "/" ∷ display (d ∷ path) ∷ [])

abbrev pub is_absolute : FilePath → Bool
is_absolute (root_dir ∷ _) = true
is_absolute _ = false

-- `Path::join`: an absolute path replaces the base, and a leading `.` is dropped after one.
abbrev pub path_join : FilePath → FilePath → FilePath
path_join [] path = path
path_join (c ∷ base) (root_dir ∷ path) = root_dir ∷ path
path_join (c ∷ base) (cur_dir ∷ path) = c ∷ base ++ path
path_join (c ∷ base) path = c ∷ base ++ path

-- `Path::starts_with`, component by component.
unfoldable pub path_starts_with : FilePath → FilePath → Bool
path_starts_with path [] = true
path_starts_with [] (_ ∷ _) = false
path_starts_with (c ∷ path) (d ∷ base) =
    let rest = path_starts_with path base in if component_eq c d then rest else false

-- The path without its last component, and that component.
unfoldable pub unsnoc : FilePath → Option (FilePath × Component)
unsnoc [] = none
unsnoc (c ∷ path) = elim (unsnoc path) [
  | none ↦ some ([], c)
  | some (front, last) ↦ some (c ∷ front, last)
]

abbrev dir_of : FilePath × Component → Option FilePath
dir_of (front, root_dir) = none
dir_of (front, _) = some front

abbrev name_of : FilePath × Component → Option String
name_of (front, normal name) = some name
name_of (front, _) = none

-- `Path::parent` and `Path::file_name`.
unfoldable pub parent : FilePath → Option FilePath
unfolding unsnoc
parent path = elim (unsnoc path) [ none ↦ none | some last ↦ dir_of last ]

unfoldable pub file_name : FilePath → Option String
unfolding unsnoc
file_name path = elim (unsnoc path) [ none ↦ none | some last ↦ name_of last ]

abbrev renamed_last : String → FilePath → Option (FilePath × Component) → FilePath
renamed_last name path none = normal name ∷ []
renamed_last name path (some (front, normal _)) = front ++ normal name ∷ []
renamed_last name path (some (front, _)) = path ++ normal name ∷ []

-- `Path::with_file_name`.
unfoldable pub with_file_name : FilePath → String → FilePath
unfolding unsnoc
with_file_name path name = renamed_last name path (unsnoc path)

-- What follows the last dot of a name; none without a dot, or where the only dot is at the start.
abbrev after_dot : List String → Option String
after_dot [] = none
after_dot (_ ∷ []) = none
after_dot (_ ∷ s ∷ []) = some s
after_dot (_ ∷ s ∷ t ∷ ss) = after_dot (s ∷ t ∷ ss)

abbrev dotted_extension : List String → Option String
dotted_extension (before ∷ after ∷ []) = if str_eq before "" then none else some after
dotted_extension parts = after_dot parts

-- `Path::extension`.
unfoldable pub extension : FilePath → Option String
unfolding file_name split_char
extension path = elim (file_name path) [
  | none ↦ none
  | some name ↦ dotted_extension (split_char b'.' name)
]

-- The order of texts by their scalar values, which is that of their bytes.
abbrev text_lt : String → String → Bool
text_lt a b = is_lt (compare a b)

abbrev rank : Component → ℕ
rank root_dir = 0
rank cur_dir = 1
rank parent_dir = 2
rank (normal name) = 3

-- The order of components: the root, `.`, `..`, and then names by their bytes.
abbrev component_lt : Component → Component → Bool
component_lt (normal a) (normal b) = text_lt a b
component_lt c d = ltb (rank c) (rank d)

-- The order of paths, in which a prefix comes first.
unfoldable pub path_lt : FilePath → FilePath → Bool
path_lt path [] = false
path_lt [] (_ ∷ _) = true
path_lt (c ∷ path) (d ∷ other) =
    let rest = path_lt path other in
    if component_lt c d then true else if component_eq c d then rest else false

unfoldable pub path_eq : FilePath → FilePath → Bool
path_eq [] [] = true
path_eq (c ∷ path) (d ∷ other) =
    let rest = path_eq path other in if component_eq c d then rest else false
path_eq _ _ = false

component_eq_refl : (c : Component) → component_eq c c ≡ true
component_eq_refl root_dir = refl
component_eq_refl cur_dir = refl
component_eq_refl parent_dir = refl
component_eq_refl (normal name) = (eq_iff name name).1 refl

pub path_eq_refl : (path : FilePath) → path_eq path path ≡ true
unfolding path_eq
path_eq_refl [] = refl
path_eq_refl (c ∷ path) = rw (component_eq_refl c) (path_eq_refl path)

-- `BTreeSet<PathBuf>::insert`.
unfoldable pub insert_path : FilePath → List FilePath → List FilePath
insert_path path [] = path ∷ []
insert_path path (other ∷ paths) =
    let rest = insert_path path paths in
    if path_lt path other
    then path ∷ other ∷ paths
    else if path_eq path other
    then other ∷ paths
    else other ∷ rest

parsed :
    components "/a/./b//../c.rs"
    ≡ root_dir ∷ normal "a" ∷ normal "b" ∷ parent_dir ∷ normal "c.rs" ∷ []
unfolding components
parsed = refl

extensions :
    (extension (components "src/a.b.md") ≡ some "md")
    × (extension (components ".bashrc") ≡ none)
    × (extension (components "Makefile") ≡ none)
unfolding components extension
extensions = (refl, refl, refl)
