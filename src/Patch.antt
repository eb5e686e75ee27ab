-- ===== src/Patch.antt =====
-- crates/gocode-tools/src/patch.rs: the patch format, and the paths that a patch names.
pub mod Parse
pub mod Content
pub mod Hunks
pub mod Rest
pub mod Sections
pub mod Errors
pub mod Splice
pub mod Endings
pub mod Location
pub mod Apply
pub mod Effects
pub mod Reports
mod Tests
use gocode.Base.{
  ◌≡◌, refl, Bool, true, false, Option, none, some, List, [], ◌∷◌, String, text_lines, strip_prefix,
  trim,
}

abbrev pub begin_marker : String
begin_marker = "*** Begin Patch"

abbrev pub end_marker : String
end_marker = "*** End Patch"

abbrev pub update_prefix : String
update_prefix = "*** Update File: "

abbrev pub add_prefix : String
add_prefix = "*** Add File: "

abbrev pub delete_prefix : String
delete_prefix = "*** Delete File: "

abbrev pub hunk_marker : String
hunk_marker = "@@"

pub record Hunk : Type 0 where
  pub old_lines : List String
  pub new_lines : List String

pub data FileOperation : Type 0 where
  update : String → List Hunk → FileOperation
  add : String → List String → FileOperation
  delete : String → FileOperation

abbrev pub or_else : Option String → Option String → Option String
or_else none b = b
or_else (some a) b = some a

abbrev pub touched : String → Option String → List String → List String
touched line none rest = rest
touched line (some path) rest = trim path ∷ rest

-- The path that a section line names.
unfoldable pub section_path : String → Option String
section_path line =
    or_else (strip_prefix update_prefix line)
      (or_else (strip_prefix add_prefix line) (strip_prefix delete_prefix line))

unfoldable pub touched_lines : List String → List String
touched_lines [] = []
touched_lines (line ∷ lines) = touched line (section_path line) (touched_lines lines)

unfoldable pub touched_paths : String → List String
unfolding touched_lines section_path
touched_paths patch = touched_lines (text_lines patch)

touched_test :
    touched_paths
      "*** Begin Patch\n*** Update File: a.rs\n-x\n+y\n*** Delete File: b\n*** End Patch"
    ≡ "a.rs" ∷ "b" ∷ []
unfolding touched_paths text_lines strip_prefix trim
touched_test = refl
