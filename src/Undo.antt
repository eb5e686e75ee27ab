-- ===== src/Undo.antt =====
-- crates/gocode-tools/src/undo.rs: the undo and redo history of the agent's file edits.
-- A stack is a list with its top, the newest transaction, at the head. Files are reached through
-- the operations `Files`: `read_current`, and `resolve_workspace_path` followed by
-- `atomic_write_file` or by the removal of the file.
pub mod Stacks
pub mod Contents
pub mod RoundTrip
mod Tests
use gocode.Base.{
  ℕ, zero, suc, Bool, true, false, ◌&&◌, not, Option, none, some, List, [], ◌∷◌, ◌++◌, String,
  if◌then◌else◌, option_eq, is_empty, length, take, ltb, Result, ok, err,
}
use gocode.Paths.{FilePath}
use gocode.Contract.{ℤ, ToolError}

abbrev default_max_entries : ℕ
default_max_entries = 50

pub record FileSnapshot : Type 0 where
  pub path : FilePath
  pub before : Option String
  pub after : Option String

pub record UndoTransaction : Type 0 where
  pub id : String
  pub created_at_unix : ℤ
  pub description : String
  pub files : List FileSnapshot

pub data FileAction : Type 0 where
  restored removed recreated : FileAction

pub record AppliedFile : Type 0 where
  pub path : FilePath
  pub action : FileAction

pub record UndoConflictFile : Type 0 where
  pub path : FilePath
  pub expected : Option String
  pub actual : Option String

pub record AppliedTransaction : Type 0 where
  pub id : String
  pub description : String
  pub files : List AppliedFile

pub record UndoConflict : Type 0 where
  pub id : String
  pub description : String
  pub files : List UndoConflictFile

pub record UndoOutcome : Type 0 where
  pub applied : List AppliedTransaction
  pub conflict : Option UndoConflict

abbrev pub no_outcome : UndoOutcome
no_outcome = record { applied = []; conflict = none }

pub data Direction : Type 0 where
  undo redo : Direction

pub record UndoStore : Type 0 where
  pub undo_stack : List UndoTransaction
  pub redo_stack : List UndoTransaction
  pub max_entries : ℕ

-- `UndoStore::new`.
unfoldable pub new_store : ℕ → UndoStore
new_store max_entries = record { undo_stack = []; redo_stack = []; max_entries = max_entries }

unfoldable pub undo_count : UndoStore → ℕ
undo_count store = length store.undo_stack

unfoldable pub redo_count : UndoStore → ℕ
redo_count store = length store.redo_stack

-- The oldest entries are dropped once the cap is exceeded.
unfoldable pub commit : UndoTransaction → UndoStore → UndoStore
commit transaction store =
    let stack = transaction ∷ store.undo_stack in
    record store {
      undo_stack =
          if ltb store.max_entries (length stack) then take store.max_entries stack else stack;
      redo_stack = [];
    }

-- `load_undo_store`, on the store that was read back, if any.
unfoldable pub load_undo_store : Option UndoStore → ℕ → UndoStore
load_undo_store none max_entries = new_store max_entries
load_undo_store (some store) max_entries = record store { max_entries = max_entries }

unfoldable pub expected_before_apply : FileSnapshot → Direction → Option String
expected_before_apply snapshot undo = snapshot.after
expected_before_apply snapshot redo = snapshot.before

unfoldable pub expected_after_apply : FileSnapshot → Direction → Option String
expected_after_apply snapshot undo = snapshot.before
expected_after_apply snapshot redo = snapshot.after

abbrev pub source : Direction → UndoStore → List UndoTransaction
source undo store = store.undo_stack
source redo store = store.redo_stack

-- The stacks after a transaction was popped from its source, which leaves `rest`, and pushed on the
-- other stack.
abbrev pub moved : Direction → UndoTransaction → List UndoTransaction → UndoStore → UndoStore
moved undo t rest store = record store { undo_stack = rest; redo_stack = t ∷ store.redo_stack }
moved redo t rest store = record store { undo_stack = t ∷ store.undo_stack; redo_stack = rest }

abbrev pub popped : Direction → List UndoTransaction → UndoStore → UndoStore
popped undo rest store = record store { undo_stack = rest }
popped redo rest store = record store { redo_stack = rest }

-- The files of a workspace, whose state is `D`, by their path in it.
pub record Files (D : Type 0) : Type 0 where
  pub read : FilePath → D → Option String
  pub write : FilePath → String → D → Result ToolError (Unit {0}) × D
  pub remove : FilePath → D → Result ToolError (Unit {0}) × D

-- One round of the loop in `UndoStore::apply`: it ends the request or goes on.
pub data Round (D : Type 0) : Type 0 where
  stop : Result ToolError UndoOutcome → UndoStore → D → Round D
  go_on : UndoOutcome → UndoStore → D → Round D

module _ {D : Type 0} (fs : Files D) where
  unfoldable pub detect_conflicts : List FileSnapshot → Direction → D → List UndoConflictFile
  detect_conflicts [] direction d = []
  detect_conflicts (snapshot ∷ files) direction d =
      let rest = detect_conflicts files direction d in
      let expected = expected_before_apply snapshot direction in
      let actual = fs.read snapshot.path d in
      if option_eq actual expected
      then rest
      else record { path = snapshot.path; expected = expected; actual = actual } ∷ rest

  abbrev action_of : Option String → Option String → FileAction
  action_of before none = removed
  action_of none (some content) = recreated
  action_of (some old) (some content) = restored

  abbrev put : FilePath → Option String → D → Result ToolError (Unit {0}) × D
  put path none d = fs.remove path d
  put path (some content) d = fs.write path content d

  abbrev listed :
      AppliedFile
      → Result ToolError (List AppliedFile) × D
      → Result ToolError (List AppliedFile) × D
  listed file (ok files, d) = (ok (file ∷ files), d)
  listed file (err e, d) = (err e, d)

  unfoldable pub apply_transaction :
      List FileSnapshot → Direction → D → Result ToolError (List AppliedFile) × D
  apply_transaction [] direction d = (ok [], d)
  apply_transaction (snapshot ∷ files) direction d =
      let target = expected_after_apply snapshot direction in
      let action = action_of (expected_before_apply snapshot direction) target in
      let (outcome, d') = put snapshot.path target d in
      elim outcome [
        | ok _ ↦
            listed (record { path = snapshot.path; action = action })
              (apply_transaction files direction d')
        | err e ↦ (err e, d')
      ]

  abbrev conflicted : UndoTransaction → List UndoConflictFile → UndoOutcome → UndoOutcome
  conflicted t conflicts outcome = record outcome {
    conflict = some (record { id = t.id; description = t.description; files = conflicts });
  }

  abbrev applied_too : UndoTransaction → List AppliedFile → UndoOutcome → UndoOutcome
  applied_too t files outcome = record outcome {
    applied =
        outcome.applied ++ record { id = t.id; description = t.description; files = files } ∷ [];
  }

  -- A failure leaves the popped transaction on neither stack.
  abbrev after_files :
      Direction
      → UndoTransaction
      → List UndoTransaction
      → UndoOutcome
      → UndoStore
      → Result ToolError (List AppliedFile) × D
      → Round D
  after_files direction t rest outcome store (ok files, d) =
      go_on (applied_too t files outcome) (moved direction t rest store) d
  after_files direction t rest outcome store (err e, d) =
      stop (err e) (popped direction rest store) d

  unfoldable pub round :
      Bool → Direction → List UndoTransaction → UndoOutcome → UndoStore → D → Round D
  round force direction [] outcome store d = stop (ok outcome) store d
  round force direction (t ∷ rest) outcome store d =
      let conflicts = detect_conflicts t.files direction d in
      if not (is_empty conflicts) && not force
      then stop (ok (conflicted t conflicts outcome)) store d
      else after_files direction t rest outcome store (apply_transaction t.files direction d)

  abbrev pub Answer : Type 0
  Answer = Result ToolError UndoOutcome × UndoStore × D

  abbrev pub after_round : (UndoOutcome → UndoStore → D → Answer) → Round D → Answer
  after_round later (stop result store d) = (result, store, d)
  after_round later (go_on outcome store d) = later outcome store d

  -- `UndoStore::apply`, from an outcome so far: the result, the store and the files.
  unfoldable pub apply : ℕ → Bool → Direction → UndoOutcome → UndoStore → D → Answer
  apply zero force direction outcome store d = (ok outcome, store, d)
  apply (suc n) force direction outcome store d =
      after_round (apply n force direction)
        (round force direction (source direction store) outcome store d)

  -- `UndoStore::undo` and `UndoStore::redo`.
  unfoldable pub undo_n : ℕ → Bool → UndoStore → D → Answer
  undo_n n force store d = apply n force undo no_outcome store d

  unfoldable pub redo_n : ℕ → Bool → UndoStore → D → Answer
  redo_n n force store d = apply n force redo no_outcome store d
