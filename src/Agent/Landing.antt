-- ===== src/Agent/Landing.antt =====
-- What ends a run: `Agent::soft_land`, the end of `Agent::drive`, and `Agent::run` of
-- crates/gocode-agent/src/agent.rs.
use gocode.Base.{
  ◌+◌, Option, none, some, List, [], ◌∷◌, ◌++◌, String, if◌then◌else◌, is_empty, unwrap_or, format,
  Result, ok, err,
}
use gocode.Paths.{FilePath, display}
use gocode.Json.{Json}
use gocode.Agent.{
  AgentLimits, AgentLimit, AgentError, AgentEvent, AgentWarning, AgentState, AgentCompletion,
  TerminationReason, normal, ChatMessage, limit_text,
}
use gocode.Agent.World.{World, Printers}
use gocode.Agent.Turn.{run_turn, Turned}
use gocode.Agent.Calls.{RunState, Exit, fail, finish, exhaust}
use gocode.Agent.Drive.{
  AgentRequest, context_of, some_or, formats, initial, Left, drive_loop, enough_fuel,
}

abbrev soft_landing_prompt : String
soft_landing_prompt = format (
    "You've reached this run's safety budget and must stop now. Do not request any more tools. "
    ∷ "Reply with a concise plain-text summary covering: changes made, validations performed, "
    ∷ "the current state, and any blockers or remaining steps." ∷ [])

abbrev validation_pending_prompt : String
validation_pending_prompt = format (
    "You changed project files but did not validate them. Do not request any more tools and do "
    ∷ "not claim the task is complete. Reply with a concise plain-text summary covering: "
    ∷ "changes made, validations performed, the current state, and the exact validation still "
    ∷ "required." ∷ [])

-- The lines of a list of entries.
bullet_lines : List String → String
bullet_lines [] = ""
bullet_lines (entry ∷ entries) = format ("  - " ∷ entry ∷ "\n" ∷ bullet_lines entries ∷ [])

path_lines : List FilePath → String
path_lines [] = ""
path_lines (path ∷ paths) = format ("  - " ∷ display path ∷ "\n" ∷ path_lines paths ∷ [])

unfoldable pub local_budget_summary : AgentLimit → List FilePath → List String → String
unfolding bullet_lines path_lines
local_budget_summary limit changed_files recent_tool_log = format (
    "Run stopped: "
    ∷ limit_text limit
    ∷ ". The model could not produce a summary, so here is what's known from the run:\n"
    ∷ (if is_empty changed_files
        then "- No files were changed.\n"
        else format ("- Files changed:\n" ∷ path_lines changed_files ∷ []))
    ∷ (if is_empty recent_tool_log
        then "- No tools were executed.\n"
        else format ("- Last tool calls:\n" ∷ bullet_lines recent_tool_log ∷ []))
    ∷ [])

module _ {W V : Type 0} (json : Json V) (printers : Printers) (world : World W V)
    (limits : AgentLimits) (request : AgentRequest V) where
  abbrev landing_prompt : AgentLimit → String
  landing_prompt AgentLimit.validation_pending = validation_pending_prompt
  landing_prompt _ = soft_landing_prompt

  abbrev pub Landed : Type 0
  Landed = Result AgentError String × RunState W V

  -- The summary is the last message of the history.
  abbrev concluded : String → RunState W V → Landed
  concluded summary s =
      (ok summary, record s { history = s.history ++ ChatMessage.assistant (some summary) [] ∷ [] })

  unfoldable pub local_summary : AgentLimit → RunState W V → String
  local_summary limit s = local_budget_summary limit s.changed_files s.recent_tool_log

  -- What the last inference gave, or a summary of the run's own where it gave nothing.
  abbrev pub summarised :
      AgentLimit
      → RunState W V
      → Turned world (formats json printers world limits request) limits
      → Landed
  summarised limit s (ok response, events, w) =
      concluded (unwrap_or (local_summary limit s) response.text) (record s {
        stats = record (s.stats) {
          turns = s.stats.turns + 1;
          last_input_tokens = some_or response.input_tokens s.stats.last_input_tokens;
        };
        events = events;
        world = w;
      })
  summarised limit s (err AgentError.cancelled, events, w) =
      (err AgentError.cancelled, record s { events = events; world = w })
  summarised limit s (err _, events, w) =
      concluded (local_summary limit s) (record s { events = events; world = w })

  unfoldable pub soft_land : AgentLimit → RunState W V → Landed
  soft_land limit s =
      let warned = s.events ++ AgentEvent.warning (AgentWarning.budget_exhausted limit) ∷ [] in
      let (stopped, w) = world.is_cancelled s.world in
      if stopped
      then (err AgentError.cancelled, record s { events = warned; world = w })
      else let s' = record s {
        history = s.history ++ ChatMessage.user (landing_prompt limit) ∷ [];
        events = warned ++ AgentEvent.state_changed AgentState.inference ∷ [];
        world = w;
      } in
        summarised limit s' (
          run_turn world (formats json printers world limits request) limits (context_of request)
            s'.history [] s'.events w)

  abbrev pub Driven : Type 0
  Driven = Result AgentError (AgentCompletion V) × RunState W V

  abbrev completion : String → String → TerminationReason → RunState W V → AgentCompletion V
  completion run_id text reason s = record {
    run_id = run_id;
    final_text = text;
    stats = s.stats;
    history = s.history;
    termination = reason;
  }

  abbrev pub landed : String → AgentLimit → Landed → Driven
  landed run_id limit (ok summary, s) =
      (ok (completion run_id summary (TerminationReason.budget_exhausted limit) s), s)
  landed run_id limit (err e, s) = (err e, s)

  -- What follows the loop.
  unfoldable pub conclude : String → Exit × RunState W V → Driven
  conclude run_id (fail e, s) = (err e, s)
  conclude run_id (finish text, s) = (ok (completion run_id text normal s), s)
  conclude run_id (exhaust limit, s) = landed run_id limit (soft_land limit s)

  abbrev pub concluded_by : String → Left json printers world limits request → Option Driven
  concluded_by run_id none = none
  concluded_by run_id (some left) = some (conclude run_id left)

  -- `Agent::drive`; none never comes out, as is proved in Agent/Totality.
  unfoldable pub drive : String → List (AgentEvent V) → W → Option Driven
  drive run_id events w = concluded_by run_id (
      drive_loop json printers world limits request (enough_fuel json printers world limits request)
        (initial json printers world limits request events w))

  -- The last event of `Agent::run`.
  abbrev pub closing_events : Result AgentError (AgentCompletion V) → List (AgentEvent V)
  closing_events (ok completion) = AgentEvent.completed completion ∷ []
  closing_events (err AgentError.cancelled) = AgentEvent.cancelled ∷ []
  closing_events (err _) = []

  abbrev pub Ran : Type 0
  Ran = Result AgentError (AgentCompletion V) × List (AgentEvent V) × W

  abbrev pub ran : Option Driven → Option Ran
  ran none = none
  ran (some (outcome, s)) = some (outcome, s.events ++ closing_events outcome, s.world)

  -- `Agent::run`: the outcome, all the events, and the world after it.
  unfoldable pub run : String → W → Option Ran
  run run_id w = ran (drive run_id (AgentEvent.started ∷ []) w)
