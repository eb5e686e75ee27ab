-- ===== src/Workspace.antt =====
-- crates/gocode-tools/src/workspace.rs: the resolution of a path inside the project, and the atomic
-- replacement of a file, over the operations of `std::fs` on a file system whose state is `D`.
pub mod Inside
pub mod Atomic
pub mod Samples
mod Tests
use gocode.Base.{
  Bool, true, false, Option, none, some, List, [], ◌∷◌, ◌++◌, String, str_eq, if◌then◌else◌, format,
  trim, unwrap_or, reverse, is_empty, Result, ok, err,
}
use gocode.Paths.{
  FilePath, Component, root_dir, cur_dir, parent_dir, normal, components, display, path_join,
  path_starts_with, parent, file_name, with_file_name,
}
use gocode.Contract.{ToolError, invalid_arguments, outside_workspace, io}

-- `write_new` opens a file that must not exist yet, writes it and flushes it. An error carries its text.
pub record FileSystem (D : Type 0) : Type 0 where
  pub exists : FilePath → D → Bool
  pub is_file : FilePath → D → Bool
  pub canonicalize : FilePath → D → Option FilePath
  pub read : FilePath → D → Result String String
  pub create_dir_all : FilePath → D → Result String (Unit {0}) × D
  pub write_new : FilePath → String → D → Result String (Unit {0}) × D
  pub rename : FilePath → FilePath → D → Result String (Unit {0}) × D
  pub remove_file : FilePath → D → Result String (Unit {0}) × D
  pub unique_suffix : D → String

-- One component pushed on a path that is written from its end.
abbrev pub push_component : Component → List Component → List Component
push_component parent_dir (normal name ∷ result) = result
push_component parent_dir result = parent_dir ∷ result
push_component cur_dir result = result
push_component root_dir result = root_dir ∷ []
push_component (normal name) result = normal name ∷ result

unfoldable pub push_all : FilePath → List Component → List Component
push_all [] result = result
push_all (c ∷ path) result = push_all path (push_component c result)

unfoldable pub normalize_lexically : FilePath → FilePath
normalize_lexically path = reverse (push_all path [])

module _ {D : Type 0} (fs : FileSystem D) where
  unfoldable pub canonicalize_best_effort : FilePath → D → FilePath
  canonicalize_best_effort path d = unwrap_or (normalize_lexically path) (fs.canonicalize path d)

  -- The canonical form of an ancestor, and the components below it.
  abbrev pub rejoined : FilePath → FilePath → D → FilePath
  rejoined existing trailing d = unwrap_or existing (fs.canonicalize existing d) ++ trailing

  -- The loop of `resolve_through_symlinks`: the ancestor is written from its end.
  unfoldable pub climb : List Component → FilePath → D → FilePath
  climb (normal name ∷ existing) trailing d =
      let higher = climb existing (normal name ∷ trailing) d in
      if fs.exists (reverse (normal name ∷ existing)) d
      then rejoined (reverse (normal name ∷ existing)) trailing d
      else higher
  climb existing trailing d = rejoined (reverse existing) trailing d

  unfoldable pub resolve_through_symlinks : FilePath → D → FilePath
  resolve_through_symlinks path d = climb (reverse path) [] d

  unfoldable pub resolve_workspace_path : FilePath → String → D → Result ToolError FilePath
  resolve_workspace_path project_root raw d =
      let normalized = normalize_lexically (path_join project_root (components raw)) in
      let resolved = resolve_through_symlinks normalized d in
      if str_eq (trim raw) ""
      then err (invalid_arguments "path must not be empty")
      else if path_starts_with resolved (canonicalize_best_effort project_root d)
      then ok resolved
      else err (outside_workspace normalized)

  abbrev pub Written : Type 0
  Written = Result ToolError (Unit {0}) × D

  abbrev pub failed_on : String → FilePath → String → ToolError
  failed_on what path error =
      io (format ("could not " ∷ what ∷ " " ∷ display path ∷ ": " ∷ error ∷ []))

  abbrev pub after_rename : FilePath → FilePath → Result String (Unit {0}) × D → Written
  after_rename temp path (ok _, d) = (ok tt, d)
  after_rename temp path (err e, d) = (err (failed_on "replace" path e), (fs.remove_file temp d).1)

  abbrev pub after_write : FilePath → FilePath → Result String (Unit {0}) × D → Written
  after_write temp path (ok _, d) = after_rename temp path (fs.rename temp path d)
  after_write temp path (err e, d) = (err (failed_on "write" path e), (fs.remove_file temp d).1)

  abbrev pub temp_name : String → D → String
  temp_name name d = format ("." ∷ name ∷ "." ∷ fs.unique_suffix d ∷ ".tmp" ∷ [])

  abbrev pub write_named : FilePath → String → Option String → D → Written
  write_named path contents none d =
      (err (io (format (display path ∷ " has no file name" ∷ []))), d)
  write_named path contents (some name) d =
      let temp = with_file_name path (temp_name name d) in
      after_write temp path (fs.write_new temp contents d)

  abbrev pub in_directory : FilePath → FilePath → String → Result String (Unit {0}) × D → Written
  in_directory dir path contents (ok _, d) = write_named path contents (file_name path) d
  in_directory dir path contents (err e, d) = (err (failed_on "create" dir e), d)

  abbrev pub write_below : FilePath → String → Option FilePath → D → Written
  write_below path contents none d = write_named path contents (file_name path) d
  write_below path contents (some dir) d =
      let made = in_directory dir path contents (fs.create_dir_all dir d) in
      if is_empty dir then write_named path contents (file_name path) d else made

  unfoldable pub atomic_write_file : FilePath → String → D → Written
  atomic_write_file path contents d = write_below path contents (parent path) d
