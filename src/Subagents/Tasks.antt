-- ===== src/Subagents/Tasks.antt =====
-- The steps of a task: `SubagentWorker::run` of crates/gocode-agent/src/subagent_manager.rs, cut
-- where it waits. A run of its agent, with the text of its error, is an argument, and so is which
-- branch of the `select!` is taken: the agent, the clock or the cancellation.
use gocode.Base.{
  ℕ, suc, Bool, true, Option, none, some, List, [], ◌∷◌, ◌++◌, map, String, if◌then◌else◌, format,
  join, Result, ok, err,
}
use gocode.Agent.{AgentCompletion}
use gocode.Process.Redact.{redact_secrets}
use gocode.Subagents.{
  SubagentRecord, SubagentResult, SubagentStatus, default_result, running, waiting_input, completed,
  failed, stopped, timed_out, set_status,
}
use gocode.Subagents.Report.{render_objective, detect_waiting_marker, parse_result}
use gocode.Subagents.Workers.{Worker, Phase, waiting, driving, asking, ended, closing, take_worker}
use gocode.Subagents.Manager.{Manager, put, update, queue_of, progress, finished}

abbrev pub with_result : Option SubagentResult → SubagentRecord → SubagentRecord
with_result none r = r
with_result (some result) r = record r { result = some result }

module _ {V : Type 0} where
  abbrev pub moved : SubagentRecord → Phase V → List (Worker V) → Manager V → Manager V
  moved task phase rest m = record m { workers = record { task = task; phase = phase } ∷ rest }

  -- A step of the task of an identifier, from its record, its phase and the other tasks.
  abbrev pub at_worker :
      (SubagentRecord → Phase V → List (Worker V) → Option (Manager V))
      → Option (Worker V × List (Worker V))
      → Option (Manager V)
  at_worker step none = none
  at_worker step (some (w, rest)) = step w.task w.phase rest

  -- The slot is taken, and the agent starts unless the task was stopped in the queue.
  abbrev pub begin :
      ℕ
      → Bool
      → Option String
      → Manager V
      → ℕ
      → SubagentRecord
      → Phase V
      → List (Worker V)
      → Option (Manager V)
  begin now is_saved instructions m (suc permits) r waiting rest =
      let m' = record m { permits = permits } in
      let r' = set_status now running r in
      some (
        if m.cancelled r.id
        then moved r (ended stopped none) rest m'
        else moved r' (driving (render_objective r' instructions) [] "") rest
            (update is_saved r' m'))
  begin now is_saved instructions m permits r phase rest = none

  unfoldable pub start : String → ℕ → Bool → Option String → Manager V → Option (Manager V)
  start id now is_saved instructions m =
      at_worker (begin now is_saved instructions m m.permits) (take_worker id m.workers)

  -- The next round of `drive_turns`, or its end, by the messages that are queued.
  abbrev pub next_round :
      SubagentResult
      → AgentCompletion V
      → SubagentRecord
      → List (Worker V)
      → Manager V
      → List String
      → Manager V
  next_round result completion r rest m [] = moved r (ended completed (some result)) rest m
  next_round result completion r rest m (message ∷ messages) =
      moved r (driving (join "\n" (message ∷ messages)) completion.history completion.final_text)
        rest (record m { pending_messages = put r.id (some []) m.pending_messages })

  abbrev pub announce : SubagentRecord → String → Manager V → Manager V
  announce r line m = record m { events = m.events ++ progress r.id line ∷ [] }

  abbrev pub after_completion :
      (String → Option SubagentResult)
      → ℕ
      → Bool
      → AgentCompletion V
      → SubagentRecord
      → List (Worker V)
      → Manager V
      → Option String
      → Manager V
  after_completion parse now is_saved completion r rest m (some question) =
      moved r (asking completion.history completion.final_text) rest (
        announce r (format ("waiting for input: " ∷ redact_secrets question ∷ []))
          (update is_saved (set_status now waiting_input r) m))
  after_completion parse now is_saved completion r rest m none =
      next_round (parse_result parse completion.final_text) completion r rest m
        (queue_of (m.pending_messages r.id))

  abbrev pub after_run :
      (String → Option SubagentResult)
      → ℕ
      → Bool
      → Manager V
      → Result String (AgentCompletion V)
      → SubagentRecord
      → Phase V
      → List (Worker V)
      → Option (Manager V)
  after_run parse now is_saved m (err e) r (driving prompt history last_text) rest = some (
      moved r (ended failed (some (record default_result { summary = last_text; error = some e })))
        rest m)
  after_run parse now is_saved m (ok completion) r (driving prompt history last_text) rest = some (
      after_completion parse now is_saved completion r rest m
        (detect_waiting_marker completion.final_text))
  after_run parse now is_saved m outcome r phase rest = none

  -- The notes on the progress of a run reach the supervisor before its outcome counts.
  abbrev pub relay : String → List String → Manager V → Manager V
  relay id lines m = record m {
    events = m.events ++ map (λ line. progress id (redact_secrets line)) lines;
  }

  unfoldable pub agent_ran :
      (String → Option SubagentResult)
      → String
      → ℕ
      → Bool
      → List String
      → Result String (AgentCompletion V)
      → Manager V
      → Option (Manager V)
  agent_ran parse id now is_saved lines outcome m =
      at_worker (after_run parse now is_saved (relay id lines m) outcome) (take_worker id m.workers)

  abbrev pub resume :
      ℕ
      → Bool
      → Manager V
      → List String
      → SubagentRecord
      → Phase V
      → List (Worker V)
      → Option (Manager V)
  resume now is_saved m (message ∷ messages) r (asking history last_text) rest = some (
      moved r (driving (join "\n" (message ∷ messages)) history last_text) rest (
        update is_saved (set_status now running r)
          (record m { pending_messages = put r.id (some []) m.pending_messages })))
  resume now is_saved m queue r phase rest = none

  -- The end of `await_message`.
  unfoldable pub answered : String → ℕ → Bool → Manager V → Option (Manager V)
  answered id now is_saved m =
      at_worker (resume now is_saved m (queue_of (m.pending_messages id)))
        (take_worker id m.workers)

  -- The clock and the cancellation cut `drive_turns` off wherever it waits.
  abbrev pub cut :
      SubagentStatus → Manager V → SubagentRecord → Phase V → List (Worker V) → Option (Manager V)
  cut status m r (driving prompt history last_text) rest = some (moved r (ended status none) rest m)
  cut status m r (asking history last_text) rest = some (moved r (ended status none) rest m)
  cut status m r phase rest = none

  unfoldable pub time_out : String → Manager V → Option (Manager V)
  time_out id m =
      at_worker (cut timed_out (record m { cancelled = put id true m.cancelled }))
        (take_worker id m.workers)

  unfoldable pub see_cancellation : String → Manager V → Option (Manager V)
  see_cancellation id m =
      if m.cancelled id then at_worker (cut stopped m) (take_worker id m.workers) else none

  -- The first part of `finish`: the record is final, and the task still holds its slot.
  abbrev pub end_task :
      ℕ → Bool → Manager V → SubagentRecord → Phase V → List (Worker V) → Option (Manager V)
  end_task now is_saved m r (ended status result) rest =
      let r' = with_result result (set_status now status r) in
      some (moved r' closing rest (update is_saved r' m))
  end_task now is_saved m r phase rest = none

  unfoldable pub finish : String → ℕ → Bool → Manager V → Option (Manager V)
  finish id now is_saved m = at_worker (end_task now is_saved m) (take_worker id m.workers)

  -- The end of `finish` and of `run`: the channel takes the last events, and the slot is free again.
  abbrev pub close : Manager V → SubagentRecord → Phase V → List (Worker V) → Option (Manager V)
  close m r closing rest =
      some
        (record m { workers = rest; permits = suc m.permits; events = m.events ++ finished r ∷ [] })
  close m r phase rest = none

  unfoldable pub leave : String → Manager V → Option (Manager V)
  leave id m = at_worker (close m) (take_worker id m.workers)
