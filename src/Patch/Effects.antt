-- ===== src/Patch/Effects.antt =====
-- What the operations of `apply_patch` of crates/gocode-tools/src/patch.rs do to their files.
use gocode.Base.{
  ℕ, ◌≡◌, refl, sym, ap, subst, ◌∙◌, true, false, List, String, if_holds, Result, ok, err,
}
use gocode.Paths.{FilePath}
use gocode.Contract.{created, modified, ToolError}
use gocode.Patch.{Hunk, FileOperation, update, add, delete}
use gocode.Patch.Hunks.{apply_hunks}
use gocode.Patch.Sections.{operation_path}
use gocode.Patch.Apply.{
  AppliedChange, a_change, added_text, Applied, after_call, write_updated, update_read, update_file,
  add_file, after_remove, delete_file, apply_operation,
}
use gocode.Workspace.{FileSystem, resolve_workspace_path, atomic_write_file}
use gocode.Workspace.Atomic.{WriteLaws, TempApart, Replaced, atomic_write_file-Replaced}

-- What the file system documents of removing a file. A removal that fails changes nothing.
pub record RemoveLaws {D : Type 0} (fs : FileSystem D) : Type 0 where
  pub is_file-remove :
      (p : FilePath) (d : D)
      → (fs.remove_file p d).0 ≡ ok tt
      → fs.is_file p (fs.remove_file p d).1 ≡ false
  pub read-remove_failed :
      (p : FilePath) (d : D) (e : String)
      → (fs.remove_file p d).0 ≡ err e
      → fs.read p (fs.remove_file p d).1 ≡ fs.read p d

module _ {D : Type 0} (fs : FileSystem D) (decimal : ℕ → String)
    (Apart : FilePath → FilePath → Type 0) (laws : WriteLaws fs Apart)
    (remove_laws : RemoveLaws fs) where
  -- What an operation that succeeds has done to the file at a path.
  abbrev pub Done : FileOperation → FilePath → D → D → Type 0
  Done (update path hunks) p d d' =
      (original : String) × (updated : String) × (fuzzy : ℕ) × (fs.read p d ≡ ok original)
      × (apply_hunks decimal original hunks path ≡ ok (updated, fuzzy))
      × (fs.read p d' ≡ ok updated)
  Done (add path content) p d d' =
      (fs.exists p d ≡ false) × (fs.read p d' ≡ ok (added_text content))
  Done (delete path) p d d' = (fs.is_file p d ≡ true) × (fs.is_file p d' ≡ false)

  abbrev pub Effect : FileOperation → FilePath → D → Applied fs decimal → Type 0
  Effect operation p d (ok _, d') = Done operation p d d'
  Effect operation p d (err _, d') = fs.read p d' ≡ fs.read p d

  written-Effect :
      (operation : FileOperation) (p : FilePath) (contents : String) (change : AppliedChange)
      (d : D) (o : Result ToolError (Unit {0}) × D)
      → Replaced fs Apart laws p contents d o
      → ((d' : D) → fs.read p d' ≡ ok contents → Done operation p d d')
      → Effect operation p d (after_call fs decimal change o)
  written-Effect operation p contents change d (ok _, d') replaced finish = finish d' replaced
  written-Effect operation p contents change d (err e, d') replaced finish = replaced

  write_updated-Effect :
      (p : FilePath) (path : String) (hunks : List Hunk) (original : String)
      (o : Result ToolError (String × ℕ)) (d : D)
      → TempApart fs Apart laws p
      → fs.read p d ≡ ok original
      → apply_hunks decimal original hunks path ≡ o
      → Effect (update path hunks) p d (write_updated fs decimal p path o d)
  write_updated-Effect p path hunks original (err e) d apart held spliced = refl
  write_updated-Effect p path hunks original (ok (updated, fuzzy)) d apart held spliced =
      written-Effect (update path hunks) p updated (a_change path modified fuzzy) d
        (atomic_write_file fs p updated d)
        (atomic_write_file-Replaced fs Apart laws p updated d apart)
        (λ d' h. (original, updated, fuzzy, held, spliced, h))

  update_read-Effect :
      (p : FilePath) (path : String) (hunks : List Hunk) (o : Result String String) (d : D)
      → TempApart fs Apart laws p
      → fs.read p d ≡ o
      → Effect (update path hunks) p d (update_read fs decimal p path hunks o d)
  update_read-Effect p path hunks (err e) d apart held = refl
  update_read-Effect p path hunks (ok original) d apart held =
      write_updated-Effect p path hunks original (apply_hunks decimal original hunks path) d apart
        held refl

  after_remove-Effect :
      (p : FilePath) (path : String) (d : D) (o : Result String (Unit {0}) × D)
      → fs.remove_file p d ≡ o
      → fs.is_file p d ≡ true
      → Effect (delete path) p d (after_remove fs decimal p path o)
  after_remove-Effect p path d (ok tt, d') e there =
      (there, ap (λ o. fs.is_file p o.1) (sym e) ∙ remove_laws.is_file-remove p d (ap (λ o. o.0) e))
  after_remove-Effect p path d (err x, d') e there =
      ap (λ o. fs.read p o.1) (sym e) ∙ remove_laws.read-remove_failed p d x (ap (λ o. o.0) e)

  -- An operation of a patch whose path resolves either fails and leaves its file as it was, or has its
  -- effect: an update replaces the contents by what its hunks make of them, an addition makes a file that
  -- was not there, and a deletion removes the file. The file system behaves as documented, and no
  -- temporary file has the path of the file itself.
  pub apply_operation-Effect :
      (root : FilePath) (operation : FileOperation) (p : FilePath) (d : D)
      → resolve_workspace_path fs root (operation_path operation) d ≡ ok p
      → TempApart fs Apart laws p
      → Effect operation p d (apply_operation fs decimal root operation d)
  unfolding apply_operation
  apply_operation-Effect root (update path hunks) p d resolved apart =
      subst (λ r. Effect (update path hunks) p d (update_file fs decimal path hunks r d))
        (sym resolved)
        (if_holds (Effect (update path hunks) p d) (fs.is_file p d)
          (λ _. update_read-Effect p path hunks (fs.read p d) d apart refl) (λ _. refl))
  apply_operation-Effect root (add path content) p d resolved apart =
      subst (λ r. Effect (add path content) p d (add_file fs decimal path content r d))
        (sym resolved)
        (if_holds (Effect (add path content) p d) (fs.exists p d) (λ _. refl)
          (λ absent.
            written-Effect (add path content) p (added_text content) (a_change path created 0) d
              (atomic_write_file fs p (added_text content) d)
              (atomic_write_file-Replaced fs Apart laws p (added_text content) d apart)
              (λ d' h. (absent, h))))
  apply_operation-Effect root (delete path) p d resolved apart =
      subst (λ r. Effect (delete path) p d (delete_file fs decimal path r d)) (sym resolved)
        (if_holds (Effect (delete path) p d) (fs.is_file p d)
          (λ there. after_remove-Effect p path d (fs.remove_file p d) refl there) (λ _. refl))
