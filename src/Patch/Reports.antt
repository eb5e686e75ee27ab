-- ===== src/Patch/Reports.antt =====
-- What `apply_patch` of crates/gocode-tools/src/patch.rs reports of the files that it changed.
use gocode.Base.{
  ℕ, ◌≡◌, refl, sym, ap, subst, ◌∙◌, List, [], ◌∷◌, ◌++◌, String, if_holds, map, append-nil, Result,
  ok, err,
}
use gocode.Paths.{FilePath, components}
use gocode.Contract.{FileChange, created, modified, deleted, ToolError}
use gocode.Patch.{Hunk, FileOperation, update, add, delete}
use gocode.Patch.Parse.{parse_patch}
use gocode.Patch.Hunks.{apply_hunks}
use gocode.Patch.Apply.{
  AppliedChange, a_change, added_text, Applied, AllApplied, after_call, write_updated, update_read,
  update_file, add_file, after_remove, delete_file, apply_operation, push_change, apply_operations,
  apply_parsed, apply_patch,
}
use gocode.Workspace.{FileSystem, resolve_workspace_path, atomic_write_file}

-- The change that an operation stands for.
abbrev pub change_of : FileOperation → FileChange
change_of (update path _) = record { path = components path; kind = modified }
change_of (add path _) = record { path = components path; kind = created }
change_of (delete path) = record { path = components path; kind = deleted }

abbrev pub changes_of : List AppliedChange → List FileChange
changes_of changes = map (λ c. c.change) changes

module _ {D : Type 0} (fs : FileSystem D) (decimal : ℕ → String) where
  abbrev Reported : FileOperation → Applied fs decimal → Type 0
  Reported operation (ok change, d) = change.change ≡ change_of operation
  Reported operation (err e, d) = Unit {0}

  after_call-Reported :
      (operation : FileOperation) (change : AppliedChange) (o : Result ToolError (Unit {0}) × D)
      → change.change ≡ change_of operation
      → Reported operation (after_call fs decimal change o)
  after_call-Reported operation change (ok _, d) h = h
  after_call-Reported operation change (err e, d) h = tt

  write_updated-Reported :
      (p : FilePath) (path : String) (hunks : List Hunk) (o : Result ToolError (String × ℕ)) (d : D)
      → Reported (update path hunks) (write_updated fs decimal p path o d)
  write_updated-Reported p path hunks (err e) d = tt
  write_updated-Reported p path hunks (ok (updated, fuzzy)) d =
      after_call-Reported (update path hunks) (a_change path modified fuzzy)
        (atomic_write_file fs p updated d) refl

  update_read-Reported :
      (p : FilePath) (path : String) (hunks : List Hunk) (o : Result String String) (d : D)
      → Reported (update path hunks) (update_read fs decimal p path hunks o d)
  update_read-Reported p path hunks (err e) d = tt
  update_read-Reported p path hunks (ok original) d =
      write_updated-Reported p path hunks (apply_hunks decimal original hunks path) d

  update_file-Reported :
      (path : String) (hunks : List Hunk) (r : Result ToolError FilePath) (d : D)
      → Reported (update path hunks) (update_file fs decimal path hunks r d)
  update_file-Reported path hunks (err e) d = tt
  update_file-Reported path hunks (ok p) d =
      if_holds (Reported (update path hunks)) (fs.is_file p d)
        (λ _. update_read-Reported p path hunks (fs.read p d) d) (λ _. tt)

  add_file-Reported :
      (path : String) (content : List String) (r : Result ToolError FilePath) (d : D)
      → Reported (add path content) (add_file fs decimal path content r d)
  add_file-Reported path content (err e) d = tt
  add_file-Reported path content (ok p) d =
      if_holds (Reported (add path content)) (fs.exists p d) (λ _. tt)
        (λ _.
          after_call-Reported (add path content) (a_change path created 0)
            (atomic_write_file fs p (added_text content) d) refl)

  after_remove-Reported :
      (p : FilePath) (path : String) (o : Result String (Unit {0}) × D)
      → Reported (delete path) (after_remove fs decimal p path o)
  after_remove-Reported p path (ok _, d) = refl
  after_remove-Reported p path (err e, d) = tt

  delete_file-Reported :
      (path : String) (r : Result ToolError FilePath) (d : D)
      → Reported (delete path) (delete_file fs decimal path r d)
  delete_file-Reported path (err e) d = tt
  delete_file-Reported path (ok p) d =
      if_holds (Reported (delete path)) (fs.is_file p d)
        (λ _. after_remove-Reported p path (fs.remove_file p d)) (λ _. tt)

  apply_operation-Reported :
      (root : FilePath) (operation : FileOperation) (d : D)
      → Reported operation (apply_operation fs decimal root operation d)
  unfolding apply_operation
  apply_operation-Reported root (update path hunks) d =
      update_file-Reported path hunks (resolve_workspace_path fs root path d) d
  apply_operation-Reported root (add path content) d =
      add_file-Reported path content (resolve_workspace_path fs root path d) d
  apply_operation-Reported root (delete path) d =
      delete_file-Reported path (resolve_workspace_path fs root path d) d

  -- These changes, if every operation succeeds.
  abbrev ReportIfOk : List FileChange → AllApplied fs decimal → Type 0
  ReportIfOk report (ok changes, d) = changes_of changes ≡ report
  ReportIfOk report (err e, d) = Unit {0}

  push_change-ReportIfOk :
      (later : List AppliedChange → D → AllApplied fs decimal) (report : List FileChange)
      (operation : FileOperation) (changes : List AppliedChange) (o : Applied fs decimal)
      → Reported operation o
      → ((c : AppliedChange) (d : D)
          → c.change ≡ change_of operation
          → ReportIfOk report (later (changes ++ c ∷ []) d))
      → ReportIfOk report (push_change fs decimal later changes o)
  push_change-ReportIfOk later report operation changes (ok c, d) reported next = next c d reported
  push_change-ReportIfOk later report operation changes (err e, d) reported next = tt

  changes_of-push :
      (changes : List AppliedChange) (c : AppliedChange) (rest : List FileChange)
      → changes_of (changes ++ c ∷ []) ++ rest ≡ changes_of changes ++ c.change ∷ rest
  changes_of-push [] c rest = refl
  changes_of-push (x ∷ changes) c rest = ap (λ r. x.change ∷ r) (changes_of-push changes c rest)

  apply_operations-ReportIfOk :
      (root : FilePath) (operations : List FileOperation) (changes : List AppliedChange) (d : D)
      → ReportIfOk
          (changes_of changes ++ map change_of operations)
          (apply_operations fs decimal root operations changes d)
  unfolding apply_operations
  apply_operations-ReportIfOk root [] changes d = sym (append-nil (changes_of changes))
  apply_operations-ReportIfOk root (operation ∷ operations) changes d =
      push_change-ReportIfOk (apply_operations fs decimal root operations)
        (changes_of changes ++ change_of operation ∷ map change_of operations) operation changes
        (apply_operation fs decimal root operation d) (apply_operation-Reported root operation d)
        (λ c d' same.
          subst
            (λ report.
              ReportIfOk report
                (apply_operations fs decimal root operations (changes ++ c ∷ []) d'))
            (changes_of-push changes c (map change_of operations)
              ∙ ap (λ x. changes_of changes ++ x ∷ map change_of operations) same)
            (apply_operations-ReportIfOk root operations (changes ++ c ∷ []) d'))

  -- A patch that is applied without an error reports one change for each of its operations, in their
  -- order, with the path and the kind of the operation.
  pub apply_patch-reports :
      (root : FilePath) (patch : String) (operations : List FileOperation)
      (changes : List AppliedChange) (d : D)
      → parse_patch patch ≡ ok operations
      → (apply_patch fs decimal root patch d).0 ≡ ok changes
      → changes_of changes ≡ map change_of operations
  unfolding apply_patch
  apply_patch-reports root patch operations changes d parsed applied =
      let all : AllApplied fs decimal = apply_operations fs decimal root operations [] d in
      let same : all.0 ≡ ok changes =
        ap (λ o. (apply_parsed fs decimal root o d).0) (sym parsed) ∙ applied in
      subst (λ r. ReportIfOk (map change_of operations) (r, all.1)) same
        (apply_operations-ReportIfOk root operations [] d)
