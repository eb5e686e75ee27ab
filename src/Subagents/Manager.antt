-- ===== src/Subagents/Manager.antt =====
-- `SubagentManager` and `SubagentWorker` of crates/gocode-agent/src/subagent_manager.rs. The maps
-- under their locks are functions, and each function below is one turn of the code at a lock: what it
-- does up to the next place where another task may come between and touch the same state. What waits
-- there is a list, `entering`, `sending` or `stopping`, or the phase of a task. A step that its guard
-- forbids is `none`. Saving a record may fail: the callers give the outcome.
use gocode.Base.{
  ℕ, zero, suc, Bool, true, false, Option, none, some, List, [], ◌∷◌, ◌++◌, String, str_eq,
  if◌then◌else◌, Result, ok, err,
}
use gocode.Paths.{FilePath}
use gocode.Agent.{AgentLimits, default_limits}
use gocode.Process.Redact.{redact_secrets}
use gocode.Subagents.{
  SubagentRecord, SubagentStatus, is_terminal, status_label, supervisor, push_message,
}
use gocode.Subagents.Spawn.{
  SubagentError, persistence, not_found, invalid_state, SubagentLimits, SpawnRequest, SpawnWorld,
  refused, fresh_record, with_worktree,
}
use gocode.Subagents.Workers.{Worker, waiting}

pub data SubagentEvent : Type 0 where
  spawned : SubagentRecord → SubagentEvent
  status_changed : String → SubagentStatus → SubagentEvent
  progress : String → String → SubagentEvent
  finished : SubagentRecord → SubagentEvent

abbrev pub Map : Type 0 → Type 0
Map A = String → Option A

abbrev pub put {ℓ} : {A : Type ℓ} → String → A → (String → A) → String → A
put key value map key' = if str_eq key key' then value else map key'

-- The cancellation flag of a task is shared: `tokens` says which of them the manager still holds.
-- `entering` are the records that `spawn` has saved and announced and not yet entered,
-- `sending` the messages that are recorded and not yet queued, and `stopping` the identifiers that
-- are to be stopped and whose flag is not yet raised. `events` are those whose sending has begun, also
-- where the channel has no room yet.
pub record Manager (V : Type 0) : Type 0 where
  pub records : Map SubagentRecord
  pub saved : Map SubagentRecord
  pub tokens : String → Bool
  pub cancelled : String → Bool
  pub pending_messages : Map (List String)
  pub entering : List SubagentRecord
  pub sending : List (String × String)
  pub stopping : List String
  pub claimed_worktrees : List FilePath
  pub permits : ℕ
  pub workers : List (Worker V)
  pub events : List SubagentEvent

abbrev pub slots : SubagentLimits → ℕ
slots limits = elim limits.max_concurrent [ zero ↦ 1 | suc n ↦ suc n ]

-- The limits of each run of a subagent's agent.
abbrev pub agent_limits : SubagentLimits → AgentLimits
agent_limits limits = record default_limits {
  max_turns = limits.max_turns;
  max_total_tool_calls = limits.max_total_tool_calls;
}

abbrev pub Spawned : Type 0 → Type 0
Spawned V = Result SubagentError String × Manager V

abbrev pub queue_of : Option (List String) → List String
queue_of none = []
queue_of (some queue) = queue

abbrev pub Sent : Type 0
Sent = List (String × String)

-- One of those that wait for a lock, and the others.
abbrev pub take_nth {ℓ} : {A : Type ℓ} → ℕ → List A → Option (A × List A)
take_nth n [] = none
take_nth zero (x ∷ rest) = some (x, rest)
take_nth (suc n) (x ∷ rest) = elim (take_nth n rest) [
  | none ↦ none
  | some (y, others) ↦ some (y, x ∷ others)
]

module _ {V : Type 0} where
  unfoldable pub new_manager : SubagentLimits → Manager V
  new_manager limits = record {
    records = λ id. none;
    saved = λ id. none;
    tokens = λ id. false;
    cancelled = λ id. false;
    pending_messages = λ id. none;
    entering = [];
    sending = [];
    stopping = [];
    claimed_worktrees = [];
    permits = slots limits;
    workers = [];
    events = [];
  }

  -- `SubagentWorker::update`. Where the channel has no room, the task waits after the record is entered;
  -- what comes between meanwhile is what may come between in the phase that the task has then.
  unfoldable pub update : Bool → SubagentRecord → Manager V → Manager V
  update is_saved r m = record m {
    records = put r.id (some r) m.records;
    saved = if is_saved then put r.id (some r) m.saved else m.saved;
    events = m.events ++ status_changed r.id r.status ∷ [];
  }

  -- `spawn` up to the event: the record is saved and announced.
  abbrev pub registered : SubagentRecord → Result String (Unit {0}) → Manager V → Spawned V
  registered r (err e) m = (err (persistence e), m)
  registered r (ok _) m = (
    ok r.id,
    record m {
      saved = put r.id (some r) m.saved;
      entering = m.entering ++ r ∷ [];
      events = m.events ++ spawned r ∷ [];
    },
  )

  abbrev pub spawned_with :
      SpawnWorld → Manager V → Result SubagentError SubagentRecord × List FilePath → Spawned V
  spawned_with world m (err e, claimed) = (err e, record m { claimed_worktrees = claimed })
  spawned_with world m (ok r, claimed) =
      registered r world.saved (record m { claimed_worktrees = claimed })

  abbrev pub unless_refused :
      SpawnRequest → SpawnWorld → Manager V → Option SubagentError → Spawned V
  unless_refused request world m (some e) = (err e, m)
  unless_refused request world m none =
      spawned_with world m (with_worktree (fresh_record request world) world m.claimed_worktrees)

  unfoldable pub spawn : SpawnRequest → SpawnWorld → Manager V → Spawned V
  spawn request world m = unless_refused request world m (refused request)

  abbrev pub enter_one :
      Manager V → Option (SubagentRecord × List SubagentRecord) → Option (Manager V)
  enter_one m none = none
  enter_one m (some (r, rest)) = some (record m {
    entering = rest;
    records = put r.id (some r) m.records;
    tokens = put r.id true m.tokens;
    cancelled = put r.id false m.cancelled;
    workers = record { task = r; phase = waiting } ∷ m.workers;
  })

  -- The end of `spawn`, of whichever caller gets the locks: the record is entered, and its task begins.
  unfoldable pub enter : ℕ → Manager V → Option (Manager V)
  enter n m = enter_one m (take_nth n m.entering)

  -- The first half of `send_message`, under the lock of the records: the record keeps the message
  -- also where saving fails.
  abbrev pub record_message :
      String
      → String
      → ℕ
      → Result String (Unit {0})
      → Manager V
      → Option SubagentRecord
      → Result SubagentError (Unit {0}) × Manager V
  record_message id text now outcome m none = (err (not_found id), m)
  record_message id text now outcome m (some r) =
      let r' = push_message now supervisor text r in
      let kept = record m { records = put id (some r') m.records } in
      let sent : Result SubagentError (Unit {0}) × Manager V = elim outcome [
        | err e ↦ (err (persistence e), kept)
        | ok _ ↦ (
          ok tt,
          record kept {
            saved = put r'.id (some r') m.saved;
            sending = m.sending ++ (id, text) ∷ [];
          },
        )
      ] in
      if is_terminal r.status
      then (err (invalid_state (status_label r.status) "message"), m)
      else sent

  unfoldable pub send_message :
      String
      → String
      → ℕ
      → Result String (Unit {0})
      → Manager V
      → Result SubagentError (Unit {0}) × Manager V
  send_message id text now outcome m =
      record_message id (redact_secrets text) now outcome m (m.records id)

  abbrev pub queue_sent : Manager V → Option ((String × String) × Sent) → Option (Manager V)
  queue_sent m none = none
  queue_sent m (some ((id, text), rest)) = some (record m {
    sending = rest;
    pending_messages =
        put id (some (queue_of (m.pending_messages id) ++ text ∷ [])) m.pending_messages;
  })

  -- The second half, of whichever sender gets the lock of the queues.
  unfoldable pub deliver : ℕ → Manager V → Option (Manager V)
  deliver n m = queue_sent m (take_nth n m.sending)

  -- The first half of `stop`, under the lock of the records.
  abbrev pub stop_record :
      String → Manager V → Option SubagentRecord → Result SubagentError (Unit {0}) × Manager V
  stop_record id m none = (err (not_found id), m)
  stop_record id m (some r) =
      if is_terminal r.status
      then (err (invalid_state (status_label r.status) "stop"), m)
      else (ok tt, record m { stopping = m.stopping ++ id ∷ [] })

  unfoldable pub stop : String → Manager V → Result SubagentError (Unit {0}) × Manager V
  stop id m = stop_record id m (m.records id)

  abbrev pub cancel_one : Manager V → Option (String × List String) → Option (Manager V)
  cancel_one m none = none
  cancel_one m (some (id, rest)) =
      let m' = record m { stopping = rest } in
      some (if m.tokens id then record m' { cancelled = put id true m.cancelled } else m')

  -- The second half, of whichever caller gets the lock of the tokens.
  unfoldable pub cancel : ℕ → Manager V → Option (Manager V)
  cancel n m = cancel_one m (take_nth n m.stopping)

  -- The record leaves memory also where its file stays. The token goes in the same step, since only
  -- the second half of `stop` reads it.
  unfoldable pub delete :
      String → Result String (Unit {0}) → Manager V → Result SubagentError (Unit {0}) × Manager V
  delete id (ok _) m = (
    ok tt,
    record m {
      records = put id none m.records;
      saved = put id none m.saved;
      tokens = put id false m.tokens;
    },
  )
  delete id (err e) m = (
    err (persistence e),
    record m { records = put id none m.records; tokens = put id false m.tokens },
  )
