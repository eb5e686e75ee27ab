-- ===== src/Patch/Apply.antt =====
-- `apply_patch` of crates/gocode-tools/src/patch.rs, over the file system of Workspace.
use gocode.Base.{ℕ, List, [], ◌∷◌, ◌++◌, String, if◌then◌else◌, format, join, Result, ok, err}
use gocode.Paths.{FilePath, components}
use gocode.Contract.{
  FileChange, ChangeKind, created, modified, deleted, ToolError, invalid_arguments, not_found,
}
use gocode.Patch.{Hunk, FileOperation, update, add, delete}
use gocode.Patch.Parse.{parse_patch}
use gocode.Patch.Hunks.{apply_hunks}
use gocode.Workspace.{FileSystem, resolve_workspace_path, atomic_write_file, failed_on}

pub record AppliedChange : Type 0 where
  pub change : FileChange
  pub fuzzy_hunks : ℕ

abbrev pub a_change : String → ChangeKind → ℕ → AppliedChange
a_change path kind fuzzy_hunks = record {
  change = record { path = components path; kind = kind };
  fuzzy_hunks = fuzzy_hunks;
}

abbrev pub added_text : List String → String
added_text [] = ""
added_text (line ∷ lines) = format (join "\n" (line ∷ lines) ∷ "\n" ∷ [])

module _ {D : Type 0} (fs : FileSystem D) (decimal : ℕ → String) where
  abbrev pub Applied : Type 0
  Applied = Result ToolError AppliedChange × D

  abbrev pub after_call : AppliedChange → Result ToolError (Unit {0}) × D → Applied
  after_call change (ok _, d) = (ok change, d)
  after_call change (err e, d) = (err e, d)

  abbrev pub write_updated : FilePath → String → Result ToolError (String × ℕ) → D → Applied
  write_updated resolved path (err e) d = (err e, d)
  write_updated resolved path (ok (updated, fuzzy_hunks)) d =
      after_call (a_change path modified fuzzy_hunks) (atomic_write_file fs resolved updated d)

  abbrev pub update_read : FilePath → String → List Hunk → Result String String → D → Applied
  update_read resolved path hunks (err e) d = (err (failed_on fs "read" resolved e), d)
  update_read resolved path hunks (ok original) d =
      write_updated resolved path (apply_hunks decimal original hunks path) d

  abbrev pub update_file : String → List Hunk → Result ToolError FilePath → D → Applied
  update_file path hunks (err e) d = (err e, d)
  update_file path hunks (ok resolved) d =
      if fs.is_file resolved d
      then update_read resolved path hunks (fs.read resolved d) d
      else (err (not_found resolved), d)

  abbrev pub add_file : String → List String → Result ToolError FilePath → D → Applied
  add_file path content (err e) d = (err e, d)
  add_file path content (ok resolved) d =
      if fs.exists resolved d
      then (
        err (
            invalid_arguments
              (format ("`" ∷ path ∷ "` already exists; use an Update File section instead" ∷ []))),
        d,
      )
      else after_call (a_change path created 0)
          (atomic_write_file fs resolved (added_text content) d)

  abbrev pub after_remove : FilePath → String → Result String (Unit {0}) × D → Applied
  after_remove resolved path (err e, d) = (err (failed_on fs "delete" resolved e), d)
  after_remove resolved path (ok _, d) = (ok (a_change path deleted 0), d)

  abbrev pub delete_file : String → Result ToolError FilePath → D → Applied
  delete_file path (err e) d = (err e, d)
  delete_file path (ok resolved) d =
      if fs.is_file resolved d
      then after_remove resolved path (fs.remove_file resolved d)
      else (err (not_found resolved), d)

  -- One round of the loop of `apply_patch`.
  unfoldable pub apply_operation : FilePath → FileOperation → D → Applied
  apply_operation root (update path hunks) d =
      update_file path hunks (resolve_workspace_path fs root path d) d
  apply_operation root (add path content) d =
      add_file path content (resolve_workspace_path fs root path d) d
  apply_operation root (delete path) d = delete_file path (resolve_workspace_path fs root path d) d

  abbrev pub AllApplied : Type 0
  AllApplied = Result ToolError (List AppliedChange) × D

  abbrev pub push_change :
      (List AppliedChange → D → AllApplied) → List AppliedChange → Applied → AllApplied
  push_change later changes (err e, d) = (err e, d)
  push_change later changes (ok change, d) = later (changes ++ change ∷ []) d

  -- What an operation wrote stays when a later one fails.
  unfoldable pub apply_operations :
      FilePath → List FileOperation → List AppliedChange → D → AllApplied
  apply_operations root [] changes d = (ok changes, d)
  apply_operations root (operation ∷ operations) changes d =
      push_change (apply_operations root operations) changes (apply_operation root operation d)

  abbrev pub apply_parsed : FilePath → Result ToolError (List FileOperation) → D → AllApplied
  apply_parsed root (err e) d = (err e, d)
  apply_parsed root (ok operations) d = apply_operations root operations [] d

  unfoldable pub apply_patch : FilePath → String → D → AllApplied
  apply_patch root patch d = apply_parsed root (parse_patch patch) d
