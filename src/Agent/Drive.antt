-- ===== src/Agent/Drive.antt =====
-- The loop of `Agent::drive` in crates/gocode-agent/src/agent.rs.
use gocode.Base.{
  ℕ, zero, suc, ◌+◌, Bool, Option, none, some, List, [], ◌∷◌, ◌++◌, String, if◌then◌else◌, ltb, leb,
  length, is_empty, unwrap_or, ok, err,
}
use gocode.Json.{Json}
use gocode.Contract.{ToolDefinition}
use gocode.ToolCalls.{Formats}
use gocode.Progress.{default_progress, requires_validation}
use gocode.Agent.{
  AgentLimits, AgentLimit, AgentError, AgentEvent, AgentState, ChatMessage, default_stats,
  limit_reached,
}
use gocode.Agent.Context.{RequestContext, PersonalityName}
use gocode.Agent.World.{World, Printers}
use gocode.Agent.Turn.{TurnResult, run_turn, Turned}
use gocode.Agent.Calls.{RunState, Exit, fail, finish, exhaust, Flow, leave, go_on}
use gocode.Agent.Step.{call_steps}

-- `AgentRequest`; its project root is part of the world.
pub record AgentRequest (V : Type 0) : Type 0 where
  pub prompt : String
  pub model : String
  pub instructions : Option String
  pub project_overview : Option String
  pub skills_summary : Option String
  pub tools_enabled : Bool
  pub reasoning_effort : Option String
  pub personality : PersonalityName
  pub history : List (ChatMessage V)

abbrev pub context_of : {V : Type 0} → AgentRequest V → RequestContext
context_of request = record {
  model = request.model;
  project_overview = request.project_overview;
  project_instructions = request.instructions;
  skills_summary = request.skills_summary;
  reasoning_effort = request.reasoning_effort;
  personality = request.personality;
}

abbrev pub some_or : Option ℕ → Option ℕ → Option ℕ
some_or none old = old
some_or (some n) old = some n

module _ {W V : Type 0} (json : Json V) (printers : Printers) (world : World W V)
    (limits : AgentLimits) (request : AgentRequest V) where
  abbrev pub formats : Formats V
  formats = record {
    from_str = json.from_str;
    empty_object = json.empty_object;
    call_label = printers.call_label;
  }

  abbrev tool_defs : List (ToolDefinition V)
  tool_defs = if request.tools_enabled then world.definitions else []

  -- The variables of `drive` before its loop.
  unfoldable pub initial : List (AgentEvent V) → W → RunState W V
  initial events w = record {
    history = request.history ++ ChatMessage.user request.prompt ∷ [];
    stats = default_stats;
    consecutive_failures = 0;
    last_call_signature = none;
    same_call_repeat_count = 0;
    changed_files = [];
    recent_tool_log = [];
    progress = default_progress;
    events = events;
    world = w;
  }

  -- What follows a response: a final text, a limit, or its tool calls.
  unfoldable pub after_turn : TurnResult V → RunState W V → Flow W V
  after_turn response s =
      if is_empty response.tool_calls
      then (if requires_validation s.progress
          then leave (exhaust AgentLimit.validation_pending) s
          else leave (finish (unwrap_or "" response.text)) s)
      else if ltb limits.max_total_tool_calls (s.stats.tool_calls + length response.tool_calls)
      then leave (exhaust AgentLimit.max_total_tool_calls) s
      else if ltb limits.max_tool_calls_per_turn (length response.tool_calls)
      then leave (fail (limit_reached AgentLimit.max_tool_calls_per_turn)) s
      else call_steps json printers world limits response.tool_calls (record s {
        events = s.events ++ AgentEvent.state_changed AgentState.executing_tools ∷ [];
      })

  -- The state with a response in its history.
  abbrev pub responded : TurnResult V → List (AgentEvent V) → W → RunState W V → RunState W V
  responded response events w s = record s {
    stats = record (s.stats) {
      last_input_tokens = some_or response.input_tokens s.stats.last_input_tokens;
    };
    history = s.history ++ ChatMessage.assistant response.text response.tool_calls ∷ [];
    events = events;
    world = w;
  }

  abbrev pub turned : RunState W V → Turned world formats limits → Flow W V
  turned s (ok response, events, w) = after_turn response (responded response events w s)
  turned s (err e, events, w) = leave (fail e) (record s { events = events; world = w })

  -- The state at the start of a turn.
  abbrev pub begun : W → RunState W V → RunState W V
  begun w s = record s {
    stats = record (s.stats) { turns = s.stats.turns + 1 };
    events = s.events ++ AgentEvent.state_changed AgentState.inference ∷ [];
    world = w;
  }

  -- The body of the loop `'drive`.
  unfoldable pub turn_step : RunState W V → Flow W V
  turn_step s =
      let (stopped, w) = world.is_cancelled s.world in
      if stopped
      then leave (fail AgentError.cancelled) (record s { world = w })
      else if leb limits.max_turns s.stats.turns
      then leave (exhaust AgentLimit.max_turns) (record s { world = w })
      else turned (begun w s) (
          run_turn world formats limits (context_of request) s.history tool_defs (begun w s).events
            w)

  abbrev pub Left : Type 0
  Left = Option (Exit × RunState W V)

  abbrev pub left_by : (RunState W V → Left) → Flow W V → Left
  left_by later (leave e s) = some (e, s)
  left_by later (go_on s) = later s

  -- The loop `'drive`, on fuel; none means that the fuel ran out.
  unfoldable pub drive_loop : ℕ → RunState W V → Left
  drive_loop zero s = none
  drive_loop (suc fuel) s = left_by (drive_loop fuel) (turn_step s)

  -- Each round but the last begins a turn.
  abbrev pub enough_fuel : ℕ
  enough_fuel = suc limits.max_turns
