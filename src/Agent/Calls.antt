-- ===== src/Agent/Calls.antt =====
-- The execution of one tool call, in crates/gocode-agent/src/agent.rs: the state of a run, the files
-- that a call may change, and what the tool reports.
use gocode.Base.{
  ℕ, Option, none, some, List, [], ◌∷◌, ◌++◌, String, str_eq, if◌then◌else◌, format, map, Result,
  ok, err,
}
use gocode.Paths.{FilePath, components, path_eq, insert_path}
use gocode.Json.{Json}
use gocode.Contract.{ToolCall, ToolResult, ToolError, FileChange, failed_result, error_text}
use gocode.Undo.{FileSnapshot}
use gocode.Progress.{TaskProgress}
use gocode.Patch.{touched_paths}
use gocode.Agent.{AgentLimit, AgentError, AgentEvent, AgentRunStats, ChatMessage, unknown_tool}
use gocode.Agent.World.{World}

abbrev pub Signature : Type 0
Signature = String × String × String

-- The local variables of `drive`, the events sent so far, and the world.
pub record RunState (W V : Type 0) : Type 0 where
  pub history : List (ChatMessage V)
  pub stats : AgentRunStats
  pub consecutive_failures : ℕ
  pub last_call_signature : Option Signature
  pub same_call_repeat_count : ℕ
  pub changed_files : List FilePath
  pub recent_tool_log : List String
  pub progress : TaskProgress
  pub events : List (AgentEvent V)
  pub world : W

-- How the loop ends: an error, a final text of the model, or a limit that calls for a soft landing.
pub data Exit : Type 0 where
  fail : AgentError → Exit
  finish : String → Exit
  exhaust : AgentLimit → Exit

pub data Flow (W V : Type 0) : Type 0 where
  leave : Exit → RunState W V → Flow W V
  go_on : RunState W V → Flow W V

abbrev flatten {ℓ} : {A : Type ℓ} → Option (Option A) → Option A
flatten none = none
flatten (some o) = o

unfoldable pub lookup_path {ℓ} : {A : Type ℓ} → FilePath → List (FilePath × A) → Option A
lookup_path path [] = none
lookup_path path ((other, a) ∷ rest) =
    let later = lookup_path path rest in if path_eq other path then some a else later

module _ {W V : Type 0} (json : Json V) (world : World W V) where
  abbrev candidates_of : Option V → (String → List String) → List String
  candidates_of none f = []
  candidates_of (some value) f = elim (json.as_str value) [ none ↦ [] | some text ↦ f text ]

  unfoldable pub candidate_paths : ToolCall V → List String
  candidate_paths call =
      if str_eq call.name "write_file"
      then candidates_of (json.get call.arguments "path") (λ path. path ∷ [])
      else if str_eq call.name "apply_patch"
      then candidates_of (json.get call.arguments "patch") touched_paths
      else []

  unfoldable pub capture_before_snapshots : ToolCall V → W → List (FilePath × Option String)
  capture_before_snapshots call w =
      map (λ path. (components path, world.read_file (components path) w)) (candidate_paths call)

  abbrev send : List (AgentEvent V) → RunState W V → RunState W V
  send events s = record s { events = s.events ++ events }

  -- A tool's result, or what ends the run.
  abbrev tool_outcome : ToolCall V → Result ToolError ToolResult → Result AgentError ToolResult
  tool_outcome call (ok result) = ok result
  tool_outcome call (err ToolError.cancelled) = err AgentError.cancelled
  tool_outcome call (err error) = ok (failed_result call.id (error_text error))

  unfoldable pub execute_tool :
      ToolCall V → RunState W V → Result AgentError ToolResult × RunState W V
  execute_tool call s =
      let (result, chunks, w) = world.execute call s.world in
      if world.registered call.name
      then (
        tool_outcome call result,
        record s {
          events =
              s.events
              ++ (AgentEvent.tool_started call.id
                  ∷ map (λ chunk. AgentEvent.tool_output_chunk call.id chunk) chunks);
          world = w;
        },
      )
      else (
        ok (failed_result call.id (format ("Tool \"" ∷ call.name ∷ "\" is not available." ∷ []))),
        send (AgentEvent.warning (unknown_tool call.name) ∷ []) s,
      )

  -- The loop over the affected files.
  unfoldable pub record_changes :
      List (FilePath × Option String) → List FileChange → RunState W V → RunState W V
  record_changes before [] s = s
  record_changes before (change ∷ changes) s =
      let w = world.notify change s.world in
      let snapshot : FileSnapshot = record {
        path = change.path;
        before = flatten (lookup_path change.path before);
        after = world.read_file change.path w;
      } in
      record_changes before changes (record s {
        changed_files = insert_path change.path s.changed_files;
        events =
            s.events ++ AgentEvent.file_changed change ∷ AgentEvent.file_snapshot snapshot ∷ [];
        world = w;
      })
