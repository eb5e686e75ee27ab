-- ===== src/Subagents/Change/Tasks.antt =====
-- Each step of a task of crates/gocode-agent/src/subagent_manager.rs is one of the changes.
use gocode.Base.{
  ℕ, zero, suc, ◌≡◌, refl, ap, subst, Bool, true, false, Option, none, some, List, [], ◌∷◌, String,
  if_holds, Result, ok, err, arith,
}
use gocode.Agent.{AgentCompletion}
use gocode.Subagents.{
  SubagentRecord, SubagentResult, SubagentStatus, running, waiting_input, stopped, timed_out,
  is_terminal, set_status,
}
use gocode.Subagents.Report.{detect_waiting_marker, parse_result}
use gocode.Subagents.Workers.{
  Worker, Phase, waiting, driving, asking, ended, closing, is_closing, holds, take_worker,
}
use gocode.Subagents.Manager.{Manager, put, update, queue_of}
use gocode.Subagents.Tasks.{
  at_worker, begin, start, next_round, after_completion, after_run, relay, agent_ran, resume,
  answered, cut, time_out, see_cancellation, end_task, finish, close, leave,
}
use gocode.Subagents.Steps.{TaskStep, starts, runs, resumes, times_out, cancels, finishes, leaves}
use gocode.Subagents.Change.{same, restated, unchanged, followed, Change, moves, ends, left}

module _ {V : Type 0} where
  -- A step that is possible makes such a change.
  abbrev Leads : Manager V → Option (Manager V) → Type 0
  Leads m none = Unit
  Leads m (some m') = Change m m'

  at_worker-Leads :
      (m : Manager V) (id : String)
      (step : SubagentRecord → Phase V → List (Worker V) → Option (Manager V))
      (o : Option (Worker V × List (Worker V)))
      → take_worker id m.workers ≡ o
      → ((w : Worker V) (rest : List (Worker V))
          → take_worker id m.workers ≡ some (w, rest)
          → Leads m (step w.task w.phase rest))
      → Leads m (at_worker step o)
  at_worker-Leads m id step none e h = tt
  at_worker-Leads m id step (some (w, rest)) e h = h w rest e

  begin-Leads :
      (now : ℕ) (is_saved : Bool) (instructions : Option String) (m : Manager V) (id : String)
      (permits : ℕ) (r : SubagentRecord) (phase : Phase V) (rest : List (Worker V))
      → m.permits ≡ permits
      → take_worker id m.workers ≡ some (record { task = r; phase = phase }, rest)
      → Leads m (begin now is_saved instructions m permits r phase rest)
  unfolding update
  begin-Leads now is_saved instructions m id zero r phase rest e taken = tt
  begin-Leads now is_saved instructions m id (suc p) r waiting rest e taken =
      if_holds (Change m) (m.cancelled r.id)
        (λ _.
          moves id (record { task = r; phase = waiting })
            (record { task = r; phase = ended stopped none }) rest taken (same refl) refl refl refl
            (unchanged refl) (omega (arith, e)) refl)
        (λ _.
          moves id (record { task = r; phase = waiting }) _ rest taken (restated now running refl)
            refl refl tt (followed now running refl refl) (omega (arith, e)) refl)
  begin-Leads now is_saved instructions m id (suc p) r (driving a b c) rest e taken = tt
  begin-Leads now is_saved instructions m id (suc p) r (asking a b) rest e taken = tt
  begin-Leads now is_saved instructions m id (suc p) r (ended a b) rest e taken = tt
  begin-Leads now is_saved instructions m id (suc p) r closing rest e taken = tt

  -- A round that ends leaves the records, and the slot with its task.
  next_round-Leads :
      (result : SubagentResult) (completion : AgentCompletion V) (m m₀ : Manager V) (id : String)
      (w : Worker V) (rest : List (Worker V)) (queue : List String)
      → take_worker id m₀.workers ≡ some (w, rest)
      → holds w.phase ≡ 1
      → is_closing w.phase ≡ false
      → m.records ≡ m₀.records
      → m.permits ≡ m₀.permits
      → Change m₀ (next_round result completion w.task rest m queue)
  next_round-Leads result completion m m₀ id w rest [] taken one going e p =
      moves id w _ rest taken (same refl) going refl refl (unchanged e) (omega (arith, one, p)) refl
  next_round-Leads result completion m m₀ id w rest (message ∷ messages) taken one going e p =
      moves id w _ rest taken (same refl) going refl tt (unchanged e) (omega (arith, one, p)) refl

  after_completion-Leads :
      (parse : String → Option SubagentResult) (now : ℕ) (is_saved : Bool)
      (completion : AgentCompletion V) (m m₀ : Manager V) (id : String) (w : Worker V)
      (rest : List (Worker V)) (question : Option String)
      → take_worker id m₀.workers ≡ some (w, rest)
      → holds w.phase ≡ 1
      → is_closing w.phase ≡ false
      → m.records ≡ m₀.records
      → m.permits ≡ m₀.permits
      → Change m₀ (after_completion parse now is_saved completion w.task rest m question)
  unfolding update
  after_completion-Leads parse now is_saved completion m m₀ id w rest none taken one going e p =
      next_round-Leads (parse_result parse completion.final_text) completion m m₀ id w rest
        (queue_of (m.pending_messages w.task.id)) taken one going e p
  after_completion-Leads parse now is_saved completion m m₀ id w rest (some question) taken one
        going e p =
      moves id w _ rest taken (same refl) going refl tt
        (followed now waiting_input refl
          (ap (put w.task.id (some (set_status now waiting_input w.task))) e))
        (omega (arith, one, p)) refl

  after_run-Leads :
      (parse : String → Option SubagentResult) (now : ℕ) (is_saved : Bool) (m m₀ : Manager V)
      (outcome : Result String (AgentCompletion V)) (id : String) (r : SubagentRecord)
      (phase : Phase V) (rest : List (Worker V))
      → take_worker id m₀.workers ≡ some (record { task = r; phase = phase }, rest)
      → m.records ≡ m₀.records
      → m.permits ≡ m₀.permits
      → Leads m₀ (after_run parse now is_saved m outcome r phase rest)
  after_run-Leads parse now is_saved m m₀ (err x) id r (driving a b c) rest taken e p =
      moves id (record { task = r; phase = driving a b c }) _ rest taken (same refl) refl refl refl
        (unchanged e) (omega (arith, p)) refl
  after_run-Leads parse now is_saved m m₀ (ok completion) id r (driving a b c) rest taken e p =
      after_completion-Leads parse now is_saved completion m m₀ id
        (record { task = r; phase = driving a b c }) rest
        (detect_waiting_marker completion.final_text) taken refl refl e p
  after_run-Leads parse now is_saved m m₀ (ok completion) id r waiting rest taken e p = tt
  after_run-Leads parse now is_saved m m₀ (ok completion) id r (asking a b) rest taken e p = tt
  after_run-Leads parse now is_saved m m₀ (ok completion) id r (ended a b) rest taken e p = tt
  after_run-Leads parse now is_saved m m₀ (ok completion) id r closing rest taken e p = tt
  after_run-Leads parse now is_saved m m₀ (err x) id r waiting rest taken e p = tt
  after_run-Leads parse now is_saved m m₀ (err x) id r (asking a b) rest taken e p = tt
  after_run-Leads parse now is_saved m m₀ (err x) id r (ended a b) rest taken e p = tt
  after_run-Leads parse now is_saved m m₀ (err x) id r closing rest taken e p = tt

  resume-Leads :
      (now : ℕ) (is_saved : Bool) (m : Manager V) (queue : List String) (id : String)
      (r : SubagentRecord) (phase : Phase V) (rest : List (Worker V))
      → take_worker id m.workers ≡ some (record { task = r; phase = phase }, rest)
      → Leads m (resume now is_saved m queue r phase rest)
  unfolding update
  resume-Leads now is_saved m [] id r phase rest taken = tt
  resume-Leads now is_saved m (x ∷ xs) id r (asking a b) rest taken =
      moves id (record { task = r; phase = asking a b }) _ rest taken (same refl) refl refl tt
        (followed now running refl refl) refl refl
  resume-Leads now is_saved m (x ∷ xs) id r waiting rest taken = tt
  resume-Leads now is_saved m (x ∷ xs) id r (driving a b c) rest taken = tt
  resume-Leads now is_saved m (x ∷ xs) id r (ended a b) rest taken = tt
  resume-Leads now is_saved m (x ∷ xs) id r closing rest taken = tt

  cut-Leads :
      (status : SubagentStatus) (m m₀ : Manager V) (id : String) (r : SubagentRecord)
      (phase : Phase V) (rest : List (Worker V))
      → is_terminal status ≡ true
      → take_worker id m₀.workers ≡ some (record { task = r; phase = phase }, rest)
      → m.records ≡ m₀.records
      → m.permits ≡ m₀.permits
      → Leads m₀ (cut status m r phase rest)
  cut-Leads status m m₀ id r waiting rest final taken e p = tt
  cut-Leads status m m₀ id r (driving a b c) rest final taken e p =
      moves id (record { task = r; phase = driving a b c }) _ rest taken (same refl) refl refl final
        (unchanged e) (omega (arith, p)) refl
  cut-Leads status m m₀ id r (asking a b) rest final taken e p =
      moves id (record { task = r; phase = asking a b }) _ rest taken (same refl) refl refl final
        (unchanged e) (omega (arith, p)) refl
  cut-Leads status m m₀ id r (ended a b) rest final taken e p = tt
  cut-Leads status m m₀ id r closing rest final taken e p = tt

  end_task-Leads :
      (now : ℕ) (is_saved : Bool) (m : Manager V) (id : String) (r : SubagentRecord)
      (phase : Phase V) (rest : List (Worker V))
      → take_worker id m.workers ≡ some (record { task = r; phase = phase }, rest)
      → Leads m (end_task now is_saved m r phase rest)
  unfolding update
  end_task-Leads now is_saved m id r waiting rest taken = tt
  end_task-Leads now is_saved m id r (driving a b c) rest taken = tt
  end_task-Leads now is_saved m id r (asking a b) rest taken = tt
  end_task-Leads now is_saved m id r closing rest taken = tt
  end_task-Leads now is_saved m id r (ended status none) rest taken =
      ends id now status none (record { task = r; phase = ended status none }) rest taken refl refl
        refl refl
  end_task-Leads now is_saved m id r (ended status (some result)) rest taken =
      ends id now status (some result) (record { task = r; phase = ended status (some result) })
        rest taken refl refl refl refl

  close-Leads :
      (m : Manager V) (id : String) (r : SubagentRecord) (phase : Phase V) (rest : List (Worker V))
      → take_worker id m.workers ≡ some (record { task = r; phase = phase }, rest)
      → Leads m (close m r phase rest)
  close-Leads m id r waiting rest taken = tt
  close-Leads m id r (driving a b c) rest taken = tt
  close-Leads m id r (asking a b) rest taken = tt
  close-Leads m id r (ended a b) rest taken = tt
  close-Leads m id r closing rest taken =
      left id (record { task = r; phase = closing }) rest taken refl refl refl refl

  see_cancellation-Leads : (m : Manager V) (id : String) → Leads m (see_cancellation id m)
  unfolding see_cancellation
  see_cancellation-Leads m id =
      if_holds (Leads m) (m.cancelled id)
        (λ _.
          at_worker-Leads m id (cut stopped m) (take_worker id m.workers) refl
            (λ w rest taken. cut-Leads stopped m m id w.task w.phase rest refl taken refl refl))
        (λ _. tt)

  pub TaskStep-Change :
      (parse : String → Option SubagentResult) (m m' : Manager V)
      → TaskStep parse m m'
      → Change m m'
  unfolding start agent_ran answered time_out finish leave
  TaskStep-Change parse m m' (starts id now is_saved instructions e) = subst (Leads m) e (
      at_worker-Leads m id (begin now is_saved instructions m m.permits) (take_worker id m.workers)
        refl
        (λ w rest taken.
          begin-Leads now is_saved instructions m id m.permits w.task w.phase rest refl taken))
  TaskStep-Change parse m m' (runs id now is_saved lines outcome e) = subst (Leads m) e (
      at_worker-Leads m id (after_run parse now is_saved (relay id lines m) outcome)
        (take_worker id m.workers) refl
        (λ w rest taken.
          after_run-Leads parse now is_saved (relay id lines m) m outcome id w.task w.phase rest
            taken refl refl))
  TaskStep-Change parse m m' (resumes id now is_saved e) = subst (Leads m) e (
      at_worker-Leads m id (resume now is_saved m (queue_of (m.pending_messages id)))
        (take_worker id m.workers) refl
        (λ w rest taken.
          resume-Leads now is_saved m (queue_of (m.pending_messages id)) id w.task w.phase rest
            taken))
  TaskStep-Change parse m m' (times_out id e) = subst (Leads m) e (
      at_worker-Leads m id (cut timed_out (record m { cancelled = put id true m.cancelled }))
        (take_worker id m.workers) refl
        (λ w rest taken.
          cut-Leads timed_out (record m { cancelled = put id true m.cancelled }) m id w.task w.phase
            rest refl taken refl refl))
  TaskStep-Change parse m m' (cancels id e) = subst (Leads m) e (see_cancellation-Leads m id)
  TaskStep-Change parse m m' (finishes id now is_saved e) = subst (Leads m) e (
      at_worker-Leads m id (end_task now is_saved m) (take_worker id m.workers) refl
        (λ w rest taken. end_task-Leads now is_saved m id w.task w.phase rest taken))
  TaskStep-Change parse m m' (leaves id e) = subst (Leads m) e (
      at_worker-Leads m id (close m) (take_worker id m.workers) refl
        (λ w rest taken. close-Leads m id w.task w.phase rest taken))
