-- ===== src/Agent/Outcome.antt =====
-- What the end of an agent run of crates/gocode-agent/src/agent.rs says about its calls.
use gocode.Base.{
  suc, ◌≡◌, refl, sym, ap, subst, ◌∙◌, false, Option, none, some, List, [], ◌∷◌, ◌++◌, String,
  if_holds, Result, ok, err,
}
use gocode.Json.{Json}
use gocode.Progress.{requires_validation, default_progress}
use gocode.Progress.Latch.{SetAtLast}
use gocode.Progress.Gate.{changes_files, validates_well, requires_validation_iff}
use gocode.Agent.{
  AgentLimits, AgentLimit, AgentError, AgentEvent, AgentWarning, AgentCompletion, normal,
}
use gocode.Agent.World.{World, Printers}
use gocode.Agent.Turn.{Turned}
use gocode.Agent.Calls.{RunState, Exit, exhaust, fail}
use gocode.Agent.Trace.{no_calls, trace, traced, AllMayRun, Silent-append}
use gocode.Agent.Tracking.{Follows, Leaves, told}
use gocode.Agent.Silence.{run_turn-Silent}
use gocode.Agent.Drive.{AgentRequest, initial, formats, Left}
use gocode.Agent.Landing.{
  soft_land, summarised, Landed, conclude, landed, drive, run, Ran, ran, concluded_by,
  closing_events,
}
use gocode.Agent.Rounds.{LeftFollows, drive_loop-Follows}
use gocode.Progress.Gate

module _ {W V : Type 0} (json : Json V) (printers : Printers) (world : World W V)
    (limits : AgentLimits) (request : AgentRequest V) where
  -- What the outcome of a run says of its events.
  abbrev pub OutcomeFollows : Result AgentError (AgentCompletion V) → List (AgentEvent V) → Type 0
  OutcomeFollows (ok completion) events =
      AllMayRun json no_calls events
      × (completion.termination ≡ normal → requires_validation (told json events) ≡ false)
  OutcomeFollows (err _) events = AllMayRun json no_calls events

  abbrev pub RanFollows : Option (Ran json printers world limits request) → Type 0
  RanFollows none = Unit {0}
  RanFollows (some (outcome, events, _)) = OutcomeFollows outcome events

  landed-OutcomeFollows :
      (run_id : String) (limit : AgentLimit) (l : Landed json printers world limits request)
      → AllMayRun json no_calls l.1.events
      → let (outcome, s) = landed json printers world limits request run_id limit l in
        OutcomeFollows outcome s.events
  landed-OutcomeFollows run_id limit (ok summary, s) h = (h, λ e. cc)
  landed-OutcomeFollows run_id limit (err e, s) h = h

  summarised-AllMayRun :
      (limit : AgentLimit) (s : RunState W V)
      (outcome : Turned world (formats json printers world limits request) limits)
      → AllMayRun json no_calls outcome.1
      → AllMayRun json no_calls
          (summarised json printers world limits request limit s outcome).1.events
  summarised-AllMayRun limit s (ok response, events, w) h = h
  summarised-AllMayRun limit s (err AgentError.cancelled, events, w) h = h
  summarised-AllMayRun limit s (err (AgentError.provider _), events, w) h = h
  summarised-AllMayRun limit s (err (AgentError.context _), events, w) h = h
  summarised-AllMayRun limit s (err (AgentError.limit_reached _), events, w) h = h
  summarised-AllMayRun limit s (err (AgentError.internal _), events, w) h = h

  soft_land-AllMayRun :
      (limit : AgentLimit) (s : RunState W V)
      → AllMayRun json no_calls s.events
      → AllMayRun json no_calls (soft_land json printers world limits request limit s).1.events
  unfolding soft_land
  soft_land-AllMayRun limit s h =
      let warning = AgentEvent.warning (AgentWarning.budget_exhausted limit) ∷ [] in
      let safe = (Silent-append json s.events warning (refl, tt)).starts h in
      if_holds
        (λ (l : Landed json printers world limits request). AllMayRun json no_calls l.1.events)
        (world.is_cancelled s.world).0 (λ _. safe)
        (λ _. summarised-AllMayRun limit _ _ (
          (run_turn-Silent json printers world limits request _ _ _ _ _).starts
            ((Silent-append json _ _ (refl, tt)).starts safe)))

  conclude-OutcomeFollows :
      (run_id : String) (e : Exit) (s : RunState W V)
      → Leaves json e s
      → let (outcome, s') = conclude json printers world limits request run_id (e, s) in
        OutcomeFollows outcome s'.events
  unfolding conclude
  conclude-OutcomeFollows run_id (fail e) s h = h
  conclude-OutcomeFollows run_id (Exit.finish text) s (follows, settled) =
      (follows.starts, λ _. sym follows.progress.0 ∙ settled)
  conclude-OutcomeFollows run_id (exhaust limit) s h =
      landed-OutcomeFollows run_id limit _ (soft_land-AllMayRun limit s h)

  -- The last event changes nothing.
  closing-OutcomeFollows :
      (outcome : Result AgentError (AgentCompletion V)) (events : List (AgentEvent V))
      → OutcomeFollows outcome events
      → OutcomeFollows outcome (events ++ closing_events json printers world limits request outcome)
  closing-OutcomeFollows (ok completion) events (safe, settled) =
      let silent = Silent-append json events (AgentEvent.completed completion ∷ []) (refl, tt) in
      (
        silent.starts safe,
        λ reason.
            ap (λ t. requires_validation (Gate.observe_all json default_progress t.observed))
              silent.calls
            ∙ settled reason,
      )
  closing-OutcomeFollows (err AgentError.cancelled) events safe =
      (Silent-append json events _ (refl, tt)).starts safe
  closing-OutcomeFollows (err (AgentError.provider _)) events safe =
      (Silent-append json events [] tt).starts safe
  closing-OutcomeFollows (err (AgentError.context _)) events safe =
      (Silent-append json events [] tt).starts safe
  closing-OutcomeFollows (err (AgentError.limit_reached _)) events safe =
      (Silent-append json events [] tt).starts safe
  closing-OutcomeFollows (err (AgentError.internal _)) events safe =
      (Silent-append json events [] tt).starts safe

  ran-RanFollows :
      (run_id : String) (left : Left json printers world limits request)
      → LeftFollows json printers world limits request left
      → RanFollows (
          ran json printers world limits request
            (concluded_by json printers world limits request run_id left))
  ran-RanFollows run_id none h = tt
  ran-RanFollows run_id (some (e, s)) h =
      closing-OutcomeFollows _ _ (conclude-OutcomeFollows run_id e s h)

  run-RanFollows :
      (run_id : String) (w : W) → RanFollows (run json printers world limits request run_id w)
  unfolding run drive initial trace traced AllMayRun Gate.observe_all
  run-RanFollows run_id w =
      let s = initial json printers world limits request (AgentEvent.started ∷ []) w in
      let follows : Follows json none s = record {
        current = refl;
        progress = (refl, refl);
        starts = (tt, tt);
      } in
      ran-RanFollows run_id _
        (drive_loop-Follows json printers world limits request (suc limits.max_turns) s follows)

  -- A run that completes normally owes no validation: by its events, no change of files came after all
  -- the validations that succeeded.
  pub run_settled :
      (run_id : String) (w w' : W) (completion : AgentCompletion V) (events : List (AgentEvent V))
      → run json printers world limits request run_id w ≡ some (ok completion, events, w')
      → completion.termination ≡ normal
      → ¬ SetAtLast (changes_files json) (validates_well json) (trace no_calls events).observed
  run_settled run_id w w' completion events h reason owed =
      let (safe, settled) = subst RanFollows h (run-RanFollows run_id w) in
      cc (settled reason, (requires_validation_iff json _).1 owed)

  -- By the events of a run, however it ends, no tool that edits is started while the run owes an
  -- inspection of a failed validation.
  pub run_starts :
      (run_id : String) (w w' : W) (outcome : Result AgentError (AgentCompletion V))
      (events : List (AgentEvent V))
      → run json printers world limits request run_id w ≡ some (outcome, events, w')
      → AllMayRun json no_calls events
  run_starts run_id w w' outcome events h =
      starts outcome (subst RanFollows h (run-RanFollows run_id w))
    where
      starts :
          (outcome : Result AgentError (AgentCompletion V))
          → OutcomeFollows outcome events
          → AllMayRun json no_calls events
      starts (ok _) h = h.0
      starts (err _) h = h
