-- ===== src/Subagents/Change.antt =====
-- What a step of crates/gocode-agent/src/subagent_manager.rs can do to the records, the slots and the
-- tasks. The invariants look at these cases and not at the code of each step.
pub mod Tasks
pub mod Entering
pub mod Requests
use gocode.Base.{ℕ, suc, ◌+◌, ◌≡◌, true, false, Option, none, some, List, ◌∷◌, String, ok}
use gocode.Paths.{FilePath}
use gocode.Subagents.{
  SubagentRecord, SubagentResult, SubagentStatus, is_terminal, supervisor, push_message, set_status,
}
use gocode.Subagents.Spawn.{SpawnRequest, SpawnWorld, refused, fresh_record, with_worktree}
use gocode.Subagents.Workers.{
  Worker, Phase, waiting, ended, closing, is_closing, holds, take_worker,
}
use gocode.Subagents.Manager.{Map, Manager, put}
use gocode.Subagents.Tasks.{with_result}
use gocode.Subagents.Steps.{IsFresh}

-- A record as it was, or in another state.
pub data Restated (r r' : SubagentRecord) : Type 0 where
  same : r' ≡ r → Restated r r'
  restated : (now : ℕ) (status : SubagentStatus) → r' ≡ set_status now status r → Restated r r'

-- A task ends in a final state.
abbrev pub EndsWell : {V : Type 0} → Phase V → Type 0
EndsWell (ended status result) = is_terminal status ≡ true
EndsWell _ = Unit

-- The records as they were, or with another running state of one task.
pub data Followed (records : Map SubagentRecord) (task : SubagentRecord)
    (records' : Map SubagentRecord) : Type 0 where
  unchanged : records' ≡ records → Followed records task records'
  followed :
      (now : ℕ) (status : SubagentStatus)
      → is_terminal status ≡ false
      → records' ≡ put task.id (some (set_status now status task)) records
      → Followed records task records'

-- A spawn that is not refused makes this record.
abbrev pub IsSpawned : SpawnRequest → SpawnWorld → List FilePath → SubagentRecord → Type 0
IsSpawned request world claimed r =
    (refused request ≡ none) × ((with_worktree (fresh_record request world) world claimed).0 ≡ ok r)

-- A record that some spawn made.
pub record IsMade (r : SubagentRecord) : Type 0 where
  pub request : SpawnRequest
  pub world : SpawnWorld
  pub claimed : List FilePath
  pub spawned : IsSpawned request world claimed r

module _ {V : Type 0} where
  pub data Change (m m' : Manager V) : Type 0 where
    nothing : m'.records ≡ m.records → m'.permits ≡ m.permits → m'.workers ≡ m.workers → Change m m'
    noted :
        (id text : String) (now : ℕ) (r : SubagentRecord)
        → m.records id ≡ some r
        → is_terminal r.status ≡ false
        → m'.records ≡ put id (some (push_message now supervisor text r)) m.records
        → m'.permits ≡ m.permits
        → m'.workers ≡ m.workers
        → Change m m'
    dropped :
        (id : String)
        → m'.records ≡ put id none m.records
        → m'.permits ≡ m.permits
        → m'.workers ≡ m.workers
        → Change m m'
    entered :
        (r : SubagentRecord)
        → IsMade r
        → IsFresh r.id m
        → m'.records ≡ put r.id (some r) m.records
        → m'.permits ≡ m.permits
        → m'.workers ≡ record { task = r; phase = waiting } ∷ m.workers
        → Change m m'
    moves :
        (id : String) (w w' : Worker V) (rest : List (Worker V))
        → take_worker id m.workers ≡ some (w, rest)
        → Restated w.task w'.task
        → is_closing w.phase ≡ false
        → is_closing w'.phase ≡ false
        → EndsWell w'.phase
        → Followed m.records w.task m'.records
        → m'.permits + holds w'.phase ≡ m.permits + holds w.phase
        → m'.workers ≡ w' ∷ rest
        → Change m m'
    ends :
        (id : String) (now : ℕ) (status : SubagentStatus) (result : Option SubagentResult)
        (w : Worker V) (rest : List (Worker V))
        → take_worker id m.workers ≡ some (w, rest)
        → w.phase ≡ ended status result
        → m'.records
          ≡ put w.task.id (some (with_result result (set_status now status w.task))) m.records
        → m'.permits ≡ m.permits
        → m'.workers
          ≡ record { task = with_result result (set_status now status w.task); phase = closing }
            ∷ rest
        → Change m m'
    left :
        (id : String) (w : Worker V) (rest : List (Worker V))
        → take_worker id m.workers ≡ some (w, rest)
        → w.phase ≡ closing
        → m'.records ≡ m.records
        → m'.permits ≡ suc m.permits
        → m'.workers ≡ rest
        → Change m m'
