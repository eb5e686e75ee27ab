-- ===== src/Subagents/Cost/Tasks.antt =====
-- Each step of a task of crates/gocode-agent/src/subagent_manager.rs leaves less to do.
use gocode.Base.{
  ℕ, zero, suc, ◌+◌, ◌<◌, ◌≡◌, refl, sym, ap, subst, Bool, true, Option, none, some, List, [], ◌∷◌,
  length, String, if_holds, Result, ok, err, arith,
}
use gocode.Agent.{AgentCompletion}
use gocode.Subagents.{
  SubagentRecord, SubagentResult, SubagentStatus, stopped, timed_out, running, set_status,
}
use gocode.Subagents.Report.{detect_waiting_marker, parse_result}
use gocode.Subagents.Workers.{Worker, Phase, waiting, driving, asking, ended, closing, take_worker}
use gocode.Subagents.Workers.Taken.{taken-Parts}
use gocode.Subagents.Manager.{Manager, put, update, queue_of}
use gocode.Subagents.Tasks.{
  begin, start, next_round, after_completion, after_run, relay, agent_ran, resume, answered, cut,
  time_out, see_cancellation, end_task, finish, close, leave, with_result,
}
use gocode.Subagents.Steps.{TaskStep, starts, runs, resumes, times_out, cancels, finishes, leaves}
use gocode.Subagents.Cost.{
  weight, queued_for, worker_cost, cost_of, cost, take_all-Shrinks, queued_after, lighter, consumed,
  put-is_some, Spends, SpendsIf, goes_on, stays, at_worker-Spends, cost_of-taken,
}

module _ {V : Type 0} where
  -- A task waits elsewhere, and takes no message.
  moves_on :
      (m : Manager V) (id : String) (r r' : SubagentRecord) (phase phase' : Phase V)
      (rest : List (Worker V))
      → take_worker id m.workers ≡ some (record { task = r; phase = phase }, rest)
      → r'.id ≡ r.id
      → weight phase' < weight phase
      → cost_of m.pending_messages (record { task = r'; phase = phase' } ∷ rest) < cost m
  moves_on m id r r' phase phase' rest taken named less =
      goes_on m m.pending_messages id _ _ rest taken (stays m) (
        subst
          (λ key.
            weight phase' + (queued_for m.pending_messages key + queued_for m.pending_messages key)
            < worker_cost m.pending_messages (record { task = r; phase = phase }))
          (sym named)
          (lighter (weight phase') (weight phase) (queued_for m.pending_messages r.id) less))

  -- A task takes all the messages that are queued for it.
  takes_all :
      (m : Manager V) (id : String) (r : SubagentRecord) (phase phase' : Phase V)
      (rest : List (Worker V)) (message : String) (messages : List String)
      → take_worker id m.workers ≡ some (record { task = r; phase = phase }, rest)
      → weight phase' < suc (suc (weight phase))
      → queue_of (m.pending_messages r.id) ≡ message ∷ messages
      → cost_of (put r.id (some []) m.pending_messages) (record { task = r; phase = phase' } ∷ rest)
        < cost m
  takes_all m id r phase phase' rest message messages taken less queue =
      goes_on m (put r.id (some []) m.pending_messages) id _ _ rest taken
        (take_all-Shrinks r.id m.pending_messages)
        (consumed (weight phase') (weight phase) _ _ (length messages) less
          (queued_after r.id m.pending_messages) (ap length queue))

  begin-Spends :
      (now : ℕ) (is_saved : Bool) (instructions : Option String) (m : Manager V) (id : String)
      (permits : ℕ) (r : SubagentRecord) (phase : Phase V) (rest : List (Worker V))
      → take_worker id m.workers ≡ some (record { task = r; phase = phase }, rest)
      → SpendsIf m (begin now is_saved instructions m permits r phase rest)
  unfolding update
  begin-Spends now is_saved instructions m id zero r phase rest taken = tt
  begin-Spends now is_saved instructions m id (suc p) r waiting rest taken =
      if_holds (Spends m) (m.cancelled r.id)
        (λ _. (moves_on m id r r waiting _ rest taken refl (omega arith), λ key h. h, refl))
        (λ _. (
          moves_on m id r (set_status now running r) waiting _ rest taken refl (omega arith),
          λ key h. put-is_some r.id key _ m.records h,
          refl,
        ))
  begin-Spends now is_saved instructions m id (suc p) r (driving a b c) rest taken = tt
  begin-Spends now is_saved instructions m id (suc p) r (asking a b) rest taken = tt
  begin-Spends now is_saved instructions m id (suc p) r (ended a b) rest taken = tt
  begin-Spends now is_saved instructions m id (suc p) r closing rest taken = tt

  next_round-Spends :
      (result : SubagentResult) (completion : AgentCompletion V) (m : Manager V)
      (lines : List String) (id : String) (r : SubagentRecord) (phase : Phase V)
      (rest : List (Worker V)) (queue : List String)
      → take_worker id m.workers ≡ some (record { task = r; phase = phase }, rest)
      → weight phase ≡ 4
      → queue_of (m.pending_messages r.id) ≡ queue
      → Spends m (next_round result completion r rest (relay id lines m) queue)
  next_round-Spends result completion m lines id r phase rest [] taken four e =
      (moves_on m id r r phase _ rest taken refl (omega (arith, four)), λ key h. h, refl)
  next_round-Spends result completion m lines id r phase rest (message ∷ messages) taken four e = (
    takes_all m id r phase _ rest message messages taken (omega (arith, four)) e,
    λ key h. h,
    refl,
  )

  after_completion-Spends :
      (parse : String → Option SubagentResult) (now : ℕ) (is_saved : Bool)
      (completion : AgentCompletion V) (m : Manager V) (lines : List String) (id : String)
      (r : SubagentRecord) (phase : Phase V) (rest : List (Worker V)) (question : Option String)
      → take_worker id m.workers ≡ some (record { task = r; phase = phase }, rest)
      → weight phase ≡ 4
      → Spends m (after_completion parse now is_saved completion r rest (relay id lines m) question)
  unfolding update
  after_completion-Spends parse now is_saved completion m lines id r phase rest none taken four =
      next_round-Spends (parse_result parse completion.final_text) completion m lines id r phase
        rest (queue_of (m.pending_messages r.id)) taken four refl
  after_completion-Spends parse now is_saved completion m lines id r phase rest (some question)
        taken four =
      (
        moves_on m id r r phase _ rest taken refl (omega (arith, four)),
        λ key h. put-is_some r.id key _ m.records h,
        refl,
      )

  after_run-Spends :
      (parse : String → Option SubagentResult) (now : ℕ) (is_saved : Bool) (m : Manager V)
      (lines : List String) (outcome : Result String (AgentCompletion V)) (id : String)
      (r : SubagentRecord) (phase : Phase V) (rest : List (Worker V))
      → take_worker id m.workers ≡ some (record { task = r; phase = phase }, rest)
      → SpendsIf m (after_run parse now is_saved (relay id lines m) outcome r phase rest)
  after_run-Spends parse now is_saved m lines (err x) id r (driving a b c) rest taken =
      (moves_on m id r r (driving a b c) _ rest taken refl (omega arith), λ key h. h, refl)
  after_run-Spends parse now is_saved m lines (ok completion) id r (driving a b c) rest taken =
      after_completion-Spends parse now is_saved completion m lines id r (driving a b c) rest
        (detect_waiting_marker completion.final_text) taken refl
  after_run-Spends parse now is_saved m lines (ok completion) id r waiting rest taken = tt
  after_run-Spends parse now is_saved m lines (ok completion) id r (asking a b) rest taken = tt
  after_run-Spends parse now is_saved m lines (ok completion) id r (ended a b) rest taken = tt
  after_run-Spends parse now is_saved m lines (ok completion) id r closing rest taken = tt
  after_run-Spends parse now is_saved m lines (err x) id r waiting rest taken = tt
  after_run-Spends parse now is_saved m lines (err x) id r (asking a b) rest taken = tt
  after_run-Spends parse now is_saved m lines (err x) id r (ended a b) rest taken = tt
  after_run-Spends parse now is_saved m lines (err x) id r closing rest taken = tt

  resume-Spends :
      (now : ℕ) (is_saved : Bool) (m : Manager V) (queue : List String) (id : String)
      (r : SubagentRecord) (phase : Phase V) (rest : List (Worker V))
      → take_worker id m.workers ≡ some (record { task = r; phase = phase }, rest)
      → queue_of (m.pending_messages r.id) ≡ queue
      → SpendsIf m (resume now is_saved m queue r phase rest)
  unfolding update
  resume-Spends now is_saved m [] id r phase rest taken e = tt
  resume-Spends now is_saved m (x ∷ xs) id r (asking a b) rest taken e = (
    takes_all m id r (asking a b) _ rest x xs taken (omega arith) e,
    λ key h. put-is_some r.id key _ m.records h,
    refl,
  )
  resume-Spends now is_saved m (x ∷ xs) id r waiting rest taken e = tt
  resume-Spends now is_saved m (x ∷ xs) id r (driving a b c) rest taken e = tt
  resume-Spends now is_saved m (x ∷ xs) id r (ended a b) rest taken e = tt
  resume-Spends now is_saved m (x ∷ xs) id r closing rest taken e = tt

  cut-Spends :
      (status : SubagentStatus) (m : Manager V) (cancelled : String → Bool) (id : String)
      (r : SubagentRecord) (phase : Phase V) (rest : List (Worker V))
      → take_worker id m.workers ≡ some (record { task = r; phase = phase }, rest)
      → SpendsIf m (cut status (record m { cancelled = cancelled }) r phase rest)
  cut-Spends status m cancelled id r waiting rest taken = tt
  cut-Spends status m cancelled id r (driving a b c) rest taken =
      (moves_on m id r r (driving a b c) _ rest taken refl (omega arith), λ key h. h, refl)
  cut-Spends status m cancelled id r (asking a b) rest taken =
      (moves_on m id r r (asking a b) _ rest taken refl (omega arith), λ key h. h, refl)
  cut-Spends status m cancelled id r (ended a b) rest taken = tt
  cut-Spends status m cancelled id r closing rest taken = tt

  end_task-Spends :
      (now : ℕ) (is_saved : Bool) (m : Manager V) (id : String) (r : SubagentRecord)
      (phase : Phase V) (rest : List (Worker V))
      → take_worker id m.workers ≡ some (record { task = r; phase = phase }, rest)
      → SpendsIf m (end_task now is_saved m r phase rest)
  unfolding update
  end_task-Spends now is_saved m id r waiting rest taken = tt
  end_task-Spends now is_saved m id r (driving a b c) rest taken = tt
  end_task-Spends now is_saved m id r (asking a b) rest taken = tt
  end_task-Spends now is_saved m id r closing rest taken = tt
  end_task-Spends now is_saved m id r (ended status none) rest taken = (
    moves_on m id r (set_status now status r) (ended status none) closing rest taken refl
        (omega arith),
    λ key h. put-is_some r.id key _ m.records h,
    refl,
  )
  end_task-Spends now is_saved m id r (ended status (some result)) rest taken = (
    moves_on m id r (with_result (some result) (set_status now status r))
        (ended status (some result)) closing rest taken refl (omega arith),
    λ key h. put-is_some r.id key _ m.records h,
    refl,
  )

  close-Spends :
      (m : Manager V) (id : String) (r : SubagentRecord) (phase : Phase V) (rest : List (Worker V))
      → take_worker id m.workers ≡ some (record { task = r; phase = phase }, rest)
      → SpendsIf m (close m r phase rest)
  close-Spends m id r waiting rest taken = tt
  close-Spends m id r (driving a b c) rest taken = tt
  close-Spends m id r (asking a b) rest taken = tt
  close-Spends m id r (ended a b) rest taken = tt
  close-Spends m id r closing rest taken =
      (omega (arith, cost_of-taken m id _ rest taken), λ key h. h, refl)

  see_cancellation-Spends : (m : Manager V) (id : String) → SpendsIf m (see_cancellation id m)
  unfolding see_cancellation
  see_cancellation-Spends m id =
      if_holds (SpendsIf m) (m.cancelled id)
        (λ _.
          at_worker-Spends m id (cut stopped m) (take_worker id m.workers) refl
            (λ w rest taken. cut-Spends stopped m m.cancelled id w.task w.phase rest taken))
        (λ _. tt)

  -- A step of a task, whatever its agent does, leaves less to do, and loses no record.
  pub TaskStep-Spends :
      (parse : String → Option SubagentResult) (m m' : Manager V)
      → TaskStep parse m m'
      → Spends m m'
  unfolding start agent_ran answered time_out finish leave
  TaskStep-Spends parse m m' (starts id now is_saved instructions e) = subst (SpendsIf m) e (
      at_worker-Spends m id (begin now is_saved instructions m m.permits) (take_worker id m.workers)
        refl
        (λ w rest taken.
          begin-Spends now is_saved instructions m id m.permits w.task w.phase rest taken))
  TaskStep-Spends parse m m' (runs id now is_saved lines outcome e) = subst (SpendsIf m) e (
      at_worker-Spends m id (after_run parse now is_saved (relay id lines m) outcome)
        (take_worker id m.workers) refl
        (λ w rest taken.
          after_run-Spends parse now is_saved m lines outcome id w.task w.phase rest taken))
  TaskStep-Spends parse m m' (resumes id now is_saved e) = subst (SpendsIf m) e (
      at_worker-Spends m id (resume now is_saved m (queue_of (m.pending_messages id)))
        (take_worker id m.workers) refl
        (λ w rest taken.
          resume-Spends now is_saved m (queue_of (m.pending_messages id)) id w.task w.phase rest
            taken
            (ap (λ key. queue_of (m.pending_messages key))
              (taken-Parts id m.workers rest w taken).0)))
  TaskStep-Spends parse m m' (times_out id e) = subst (SpendsIf m) e (
      at_worker-Spends m id (cut timed_out (record m { cancelled = put id true m.cancelled }))
        (take_worker id m.workers) refl
        (λ w rest taken.
          cut-Spends timed_out m (put id true m.cancelled) id w.task w.phase rest taken))
  TaskStep-Spends parse m m' (cancels id e) = subst (SpendsIf m) e (see_cancellation-Spends m id)
  TaskStep-Spends parse m m' (finishes id now is_saved e) = subst (SpendsIf m) e (
      at_worker-Spends m id (end_task now is_saved m) (take_worker id m.workers) refl
        (λ w rest taken. end_task-Spends now is_saved m id w.task w.phase rest taken))
  TaskStep-Spends parse m m' (leaves id e) = subst (SpendsIf m) e (
      at_worker-Spends m id (close m) (take_worker id m.workers) refl
        (λ w rest taken. close-Spends m id w.task w.phase rest taken))
