-- ===== src/Subagents/Steps.antt =====
-- The interleavings of crates/gocode-agent/src/subagent_manager.rs: what the supervisor asks and
-- what the tasks do, in any order.
use gocode.Base.{ℕ, ◌≡◌, Bool, false, Option, none, some, List, String, Result}
use gocode.Agent.{AgentCompletion}
use gocode.Subagents.{SubagentRecord, SubagentResult}
use gocode.Subagents.Spawn.{SubagentLimits, SpawnRequest, SpawnWorld}
use gocode.Subagents.Workers.{has_worker}
use gocode.Subagents.Manager.{
  Manager, new_manager, spawn, enter, take_nth, send_message, deliver, stop, cancel, delete,
}
use gocode.Subagents.Tasks.{start, agent_ran, answered, time_out, see_cancellation, finish, leave}

-- A random identifier has neither a record nor a task when it is entered.
abbrev pub IsFresh : {V : Type 0} → String → Manager V → Type 0
IsFresh id m = (m.records id ≡ none) × (has_worker id m.workers ≡ false)

-- Any number of steps.
pub data Reach {V : Type 0} (R : Manager V → Manager V → Type 0) (s : Manager V)
    : Manager V → Type 0 where
  here : Reach R s s
  next : {t u : Manager V} → Reach R s t → R t u → Reach R s u

module _ {V : Type 0} (parse : String → Option SubagentResult) where
  -- What a task does by itself.
  pub data TaskStep (m m' : Manager V) : Type 0 where
    starts :
        (id : String) (now : ℕ) (saved : Bool) (instructions : Option String)
        → start id now saved instructions m ≡ some m'
        → TaskStep m m'
    runs :
        (id : String) (now : ℕ) (saved : Bool) (lines : List String)
        (outcome : Result String (AgentCompletion V))
        → agent_ran parse id now saved lines outcome m ≡ some m'
        → TaskStep m m'
    resumes :
        (id : String) (now : ℕ) (saved : Bool) → answered id now saved m ≡ some m' → TaskStep m m'
    times_out : (id : String) → time_out id m ≡ some m' → TaskStep m m'
    cancels : (id : String) → see_cancellation id m ≡ some m' → TaskStep m m'
    finishes :
        (id : String) (now : ℕ) (saved : Bool) → finish id now saved m ≡ some m' → TaskStep m m'
    leaves : (id : String) → leave id m ≡ some m' → TaskStep m m'

  -- What the supervisor asks for, or a step of a task.
  pub data Step (m m' : Manager V) : Type 0 where
    spawns :
        (request : SpawnRequest) (world : SpawnWorld) → (spawn request world m).1 ≡ m' → Step m m'
    enters :
        (n : ℕ) (r : SubagentRecord) (rest : List SubagentRecord)
        → take_nth n m.entering ≡ some (r, rest)
        → IsFresh r.id m
        → enter n m ≡ some m'
        → Step m m'
    sends :
        (id text : String) (now : ℕ) (saved : Result String (Unit {0}))
        → (send_message id text now saved m).1 ≡ m'
        → Step m m'
    delivers : (n : ℕ) → deliver n m ≡ some m' → Step m m'
    stops : (id : String) → (stop id m).1 ≡ m' → Step m m'
    signals : (n : ℕ) → cancel n m ≡ some m' → Step m m'
    deletes :
        (id : String) (removed : Result String (Unit {0}))
        → (delete id removed m).1 ≡ m'
        → Step m m'
    works : TaskStep m m' → Step m m'

  abbrev pub Reachable : SubagentLimits → Manager V → Type 0
  Reachable limits m = Reach Step (new_manager limits) m
