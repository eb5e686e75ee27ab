-- ===== src/Undo/Tests.antt =====
-- The undo history over files that are a function from paths to contents.
use gocode.Base.{
  ◌≤◌, ◌+◌, ◌≡◌, refl, false, Option, none, some, List, [], ◌∷◌, String, ok, if◌then◌else◌, All,
}
use gocode.Paths.{FilePath, Component, path_eq, path_eq_refl}
use gocode.Contract.{pos}
use gocode.Undo.{
  redo, FileSnapshot, UndoTransaction, UndoStore, UndoConflict, undo, Files, new_store, no_outcome,
  apply, undo_n, redo_n, detect_conflicts, apply_transaction, round, expected_before_apply,
  expected_after_apply, undo_count, redo_count, conflicted,
}
use gocode.Undo.Contents.{
  FilesLaws, AreApart, apply_transaction-Effect, OkThen, AreRestored, AreRedone,
}
use gocode.Undo.Stacks.{
  committed, asked, after_requests, AnswerCounts, apply-counts, history-IsBounded,
}
use gocode.Undo.RoundTrip.{redo-undo, conflict_changes_nothing}

abbrev Contents : Type 0
Contents = FilePath → Option String

abbrev changed : FilePath → Option String → Contents → Contents
changed path content d = λ q. if path_eq path q then content else d q

abbrev files_of : Files Contents
files_of = record {
  read = λ path d. d path;
  write = λ path content d. (ok tt, changed path (some content) d);
  remove = λ path d. (ok tt, changed path none d);
}

abbrev Differ : FilePath → FilePath → Type 0
Differ p q = path_eq p q ≡ false

files_of-laws : FilesLaws files_of Differ
files_of-laws = record {
  read-write = λ p s d h. rw (path_eq_refl p) refl;
  read-write_apart = λ p q s d h. rw h refl;
  read-remove = λ p d h. rw (path_eq_refl p) refl;
  read-remove_apart = λ p q d h. rw h refl;
}

abbrev a_file : FilePath
a_file = Component.normal "a.rs" ∷ []

abbrev b_file : FilePath
b_file = Component.normal "b.rs" ∷ []

abbrev other_file : FilePath
other_file = Component.normal "c.rs" ∷ []

abbrev two_files : List FileSnapshot
two_files =
    record { path = a_file; before = some "old"; after = some "new" }
    ∷ record { path = b_file; before = none; after = some "made" }
    ∷ []

abbrev an_edit : UndoTransaction
an_edit = record { id = "1"; created_at_unix = pos 0; description = "edit"; files = two_files }

abbrev edited_files : Contents
edited_files = changed a_file (some "new") (changed b_file (some "made") (λ q. none))

abbrev one_edit : UndoStore
one_edit = record { undo_stack = an_edit ∷ []; redo_stack = []; max_entries = 2 }

apart : AreApart Differ two_files
unfolding path_eq
apart = (((refl, refl), tt), (tt, tt))

Effect_example :
    let (undone, d_undone) = apply_transaction files_of two_files undo edited_files in
    let (redone, d_redone) = apply_transaction files_of two_files redo edited_files in
    OkThen undone (AreRestored files_of d_undone two_files)
    × OkThen redone (AreRedone files_of d_redone two_files)
    × (d_undone other_file ≡ none)
    × (d_redone other_file ≡ none)
unfolding path_eq
Effect_example =
    apply_transaction-Effect files_of Differ files_of-laws other_file two_files edited_files apart
      (refl, (refl, tt))

counts_example :
    AnswerCounts files_of one_edit (apply files_of 3 false undo no_outcome one_edit edited_files)
counts_example = apply-counts files_of 3 false undo no_outcome one_edit edited_files

history_example :
    let store =
      (after_requests files_of
        (committed an_edit ∷ asked 1 false undo ∷ committed an_edit ∷ committed an_edit ∷ [])
        (new_store 2, edited_files)).0 in
    undo_count store + redo_count store ≤ 2
history_example =
    history-IsBounded files_of 2
      (committed an_edit ∷ asked 1 false undo ∷ committed an_edit ∷ committed an_edit ∷ [])
      edited_files

abbrev no_conflict : Option UndoConflict
no_conflict = none

redo-undo_example :
    let (r, undone, d') = undo_n files_of 1 false one_edit edited_files in
    let (r', redone, d'') = redo_n files_of 1 false undone d' in
    (no_conflict ≡ none)
    × (redone ≡ one_edit)
    × All (λ (f : FileSnapshot). d'' f.path ≡ edited_files f.path) two_files
unfolding undo_n redo_n apply round detect_conflicts apply_transaction expected_before_apply
    expected_after_apply path_eq
redo-undo_example =
    redo-undo files_of Differ files_of-laws an_edit [] one_edit edited_files _ refl apart
      (_, refl, refl) refl

conflict_example : apply files_of 1 false undo no_outcome one_edit (λ q. none) ≡ (
  ok (
      conflicted files_of an_edit
        (detect_conflicts files_of two_files undo (λ q. none))
        no_outcome),
  one_edit,
  (λ q. none),
)
unfolding expected_before_apply
conflict_example =
    conflict_changes_nothing files_of 0 undo an_edit [] no_outcome one_edit (λ q. none) refl
      (λ h. cc h.0)
