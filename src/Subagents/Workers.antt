-- ===== src/Subagents/Workers.antt =====
-- The tasks of crates/gocode-agent/src/subagent_manager.rs: each `SubagentWorker::run` that has begun
-- and not yet ended, with the place where it waits. Their order has no meaning.
pub mod Taken
use gocode.Base.{
  ℕ, ◌+◌, ◌≢◌, ◌||◌, Bool, true, false, Option, none, some, List, [], ◌∷◌, String, str_eq,
  if◌then◌else◌, All,
}
use gocode.Agent.{ChatMessage}
use gocode.Subagents.{SubagentRecord, SubagentResult, SubagentStatus}

-- Where a task waits: for a slot, for its agent, for an answer of the supervisor, or, the `select!`
-- decided, for the lock of the records, or, its record final, for room in the channel of the events.
pub data Phase (V : Type 0) : Type 0 where
  waiting : Phase V
  driving : String → List (ChatMessage V) → String → Phase V
  asking : List (ChatMessage V) → String → Phase V
  ended : SubagentStatus → Option SubagentResult → Phase V
  closing : Phase V

pub record Worker (V : Type 0) : Type 0 where
  pub task : SubagentRecord
  pub phase : Phase V

-- A task holds a slot from its start to its end.
abbrev pub holds : {V : Type 0} → Phase V → ℕ
holds waiting = 0
holds _ = 1

-- The record of a task is final while the task announces its end.
abbrev pub is_closing : {V : Type 0} → Phase V → Bool
is_closing closing = true
is_closing _ = false

module _ {V : Type 0} where
  unfoldable pub holders : List (Worker V) → ℕ
  holders [] = 0
  holders (w ∷ workers) = holds w.phase + holders workers

  abbrev pub aside :
      Worker V → Option (Worker V × List (Worker V)) → Option (Worker V × List (Worker V))
  aside v none = none
  aside v (some (w, rest)) = some (w, v ∷ rest)

  -- The task of an identifier, and the others.
  unfoldable pub take_worker : String → List (Worker V) → Option (Worker V × List (Worker V))
  take_worker id [] = none
  take_worker id (w ∷ workers) =
      let later = aside w (take_worker id workers) in
      if str_eq w.task.id id then some (w, workers) else later

  abbrev pub IsOther : String → Worker V → Type 0
  IsOther id w = w.task.id ≢ id

  abbrev pub IsUnique : List (Worker V) → Type 0
  IsUnique [] = Unit
  IsUnique (w ∷ workers) = All (IsOther w.task.id) workers × IsUnique workers

  -- What holds of the parts that a search finds.
  abbrev pub Splits :
      (Worker V → List (Worker V) → Type 0) → Option (Worker V × List (Worker V)) → Type 0
  Splits P none = Unit
  Splits P (some (w, rest)) = P w rest

  -- A task of an identifier among others is found.
  abbrev pub has_worker : String → List (Worker V) → Bool
  has_worker id [] = false
  has_worker id (w ∷ workers) = str_eq w.task.id id || has_worker id workers
