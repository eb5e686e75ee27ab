-- ===== src/Agent/Step.antt =====
-- What `Agent::drive` of crates/gocode-agent/src/agent.rs records of the result of a tool call, and
-- the limits that may end the run after it.
use gocode.Base.{
  ℕ, ◌+◌, Bool, true, false, ◌&&◌, Option, none, some, List, [], ◌∷◌, ◌++◌, String, str_eq,
  if◌then◌else◌, ltb, leb, length, drop, format, Result, ok, err,
}
use gocode.Paths.{FilePath}
use gocode.Json.{Json}
use gocode.Contract.{ToolCall, ToolResult, ToolStatus, failed_result, success, failed, denied}
use gocode.Progress.{observe, blocks_edit, has_no_progress, take_recovery_reminder, is_success}
use gocode.Agent.{
  AgentLimits, AgentLimit, AgentError, AgentEvent, AgentWarning, ChatMessage, repeated_tool_call,
  loop_detected,
}
use gocode.Agent.World.{World, Printers}
use gocode.Agent.Calls.{
  RunState, fail, exhaust, Flow, leave, go_on, capture_before_snapshots, execute_tool,
  record_changes, Signature,
}

abbrev recovery_evidence_required : String
recovery_evidence_required = format (
    "The last validation failed. Before another edit, inspect the failure with read_file, "
    ∷ "search, list_files, or diagnostics and use that new evidence to choose a different fix."
    ∷ [])

abbrev pub recent_tool_log_capacity : ℕ
recent_tool_log_capacity = 5

unfoldable pub signature_eq : Option Signature → Signature → Bool
signature_eq none _ = false
signature_eq (some (a, b, c)) (a', b', c') = str_eq a a' && str_eq b b' && str_eq c c'

abbrev status_label : ToolStatus → String
status_label success = "ok"
status_label failed = "failed"
status_label ToolStatus.cancelled = "cancelled"
status_label denied = "denied"

abbrev status_debug : ToolStatus → String
status_debug success = "Success"
status_debug failed = "Failed"
status_debug ToolStatus.cancelled = "Cancelled"
status_debug denied = "Denied"

abbrev bool_text : Bool → String
bool_text true = "true"
bool_text false = "false"

-- `recent_tool_log.push_back`, and `pop_front` over the capacity.
unfoldable pub push_log : String → List String → List String
push_log entry log =
    let longer = log ++ entry ∷ [] in
    if ltb recent_tool_log_capacity (length longer) then drop 1 longer else longer

module _ {W V : Type 0} (json : Json V) (printers : Printers) (world : World W V)
    (limits : AgentLimits) where
  unfoldable pub tool_evidence_signature : ToolResult → String
  tool_evidence_signature result = format (
      status_debug result.status
      ∷ "\0"
      ∷ printers.exit_code_text result.metadata.exit_code
      ∷ "\0"
      ∷ bool_text result.metadata.truncated
      ∷ "\0"
      ∷ bool_text result.output.truncated
      ∷ "\0"
      ∷ result.output.content
      ∷ [])

  abbrev pub signature_of : ToolCall V → ToolResult → Signature
  signature_of call result =
      (call.name, json.to_string call.arguments, tool_evidence_signature result)

  -- `progress.observe`, the repeated-call detection, the log and the failure counters.
  unfoldable pub observe_result : ToolCall V → ToolResult → RunState W V → RunState W V
  observe_result call result s =
      let repeated = signature_eq s.last_call_signature (signature_of call result) in
      let succeeded = is_success result.status in
      record s {
        progress = (observe json call result s.progress).1;
        last_call_signature =
            if repeated then s.last_call_signature else some (signature_of call result);
        same_call_repeat_count = if repeated then s.same_call_repeat_count + 1 else 1;
        recent_tool_log =
            push_log (format (call.name ∷ " -> " ∷ status_label result.status ∷ []))
              s.recent_tool_log;
        consecutive_failures = if succeeded then 0 else s.consecutive_failures + 1;
        stats =
            if succeeded
            then s.stats
            else record (s.stats) { failed_tool_calls = s.stats.failed_tool_calls + 1 };
      }

  abbrev reminded : Option String → List (ChatMessage V)
  reminded none = []
  reminded (some reminder) = ChatMessage.system reminder ∷ []

  -- The answer to the model, the reminder of a failed validation, and `ToolFinished`.
  unfoldable pub push_result : ToolResult → RunState W V → RunState W V
  push_result result s =
      let (reminder, progress) = take_recovery_reminder s.progress in
      record s {
        history =
            s.history
            ++ (ChatMessage.tool result.call_id result.output.content ∷ reminded reminder);
        progress = progress;
        events = s.events ++ AgentEvent.tool_finished result ∷ [];
      }

  -- The limits that are tested after each call.
  unfoldable pub check_limits : ToolCall V → RunState W V → Flow W V
  check_limits call s =
      if leb 3 s.same_call_repeat_count
      then leave (exhaust repeated_tool_call)
          (record s { events = s.events ++ AgentEvent.warning (loop_detected call.name) ∷ [] })
      else if has_no_progress s.progress
      then leave (exhaust AgentLimit.no_progress)
          (record s { events = s.events ++ AgentEvent.warning AgentWarning.no_progress ∷ [] })
      else if leb limits.max_consecutive_failures s.consecutive_failures
      then leave (exhaust AgentLimit.consecutive_failures) s
      else go_on s

  -- What the run does with the result of a call.
  unfoldable pub after_result :
      List (FilePath × Option String) → ToolCall V → ToolResult → RunState W V → Flow W V
  after_result before call result s = check_limits call (
      push_result result (
        record_changes json world before result.metadata.affected_files
          (observe_result call result s)))

  abbrev pub executed :
      List (FilePath × Option String)
      → ToolCall V
      → Result AgentError ToolResult × RunState W V
      → Flow W V
  executed before call (ok result, s) = after_result before call result s
  executed before call (err e, s) = leave (fail e) s

  -- The result of a call: a refusal if the last validation failed and the call would edit.
  unfoldable pub tool_result :
      ToolCall V → RunState W V → Result AgentError ToolResult × RunState W V
  tool_result call s =
      if blocks_edit call s.progress
      then (ok (failed_result call.id recovery_evidence_required), s)
      else execute_tool json world call s

  -- The call is counted and announced.
  unfoldable pub requested : ToolCall V → W → RunState W V → RunState W V
  requested call w s = record s {
    stats = record (s.stats) { tool_calls = s.stats.tool_calls + 1 };
    events = s.events ++ AgentEvent.tool_requested call ∷ [];
    world = w;
  }

  -- The body of `for call in tool_calls`.
  unfoldable pub call_step : ToolCall V → RunState W V → Flow W V
  call_step call s =
      let (stopped, w) = world.is_cancelled s.world in
      let s' = requested call w s in
      let before = capture_before_snapshots json world call w in
      if stopped
      then leave (fail AgentError.cancelled) (record s { world = w })
      else executed before call (tool_result call s')

  abbrev pub then_flow : (RunState W V → Flow W V) → Flow W V → Flow W V
  then_flow k (leave e s) = leave e s
  then_flow k (go_on s) = k s

  unfoldable pub call_steps : List (ToolCall V) → RunState W V → Flow W V
  call_steps [] s = go_on s
  call_steps (call ∷ calls) s = then_flow (call_steps calls) (call_step call s)
