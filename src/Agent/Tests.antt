-- ===== src/Agent/Tests.antt =====
-- A run with a scripted provider: it edits a file, tests it, and answers.
use gocode.Base.{
  map, format, ◌++◌, ℕ, zero, suc, ◌≤◌, ◌≡◌, refl, Bool, true, false, none, some, List, [], ◌∷◌,
  ◌++◌, String, str_eq, Option, Result, ok, err, if◌then◌else◌, format,
}
use gocode.Json.Samples.{Sample, sample_json}
use gocode.Contract.Samples.{written, tests_passed}
use gocode.Progress.Latch.{SetAtLast}
use gocode.Progress.Gate.{changes_files, validates_well}
use gocode.ToolCalls.{ToolCallDelta, Formats}
use gocode.Agent.{
  AgentLimits, default_stats, AgentError, AgentEvent, AgentCompletion, ChatMessage, ChatStreamEvent,
  FinishReason, TerminationReason, normal,
}
use gocode.Agent.Context.{
  system_prompt, style_title, personality_instruction, PersonalityName, build_request,
}
use gocode.Agent.World.{World, Received, item, Printers}
use gocode.Agent.Drive.{AgentRequest, context_of}
use gocode.Agent.Landing.{run, Ran}
use gocode.Agent.Turn.{run_turn}
use gocode.Agent.Trace.{no_calls, trace, AllMayRun}
use gocode.Agent.Outcome.{run_settled, run_starts}
use gocode.Agent.Requests.{build_request-IsOrdered, as_system, present, given}
use gocode.Agent.Responses.{run_turn-IsBounded, BoundedIfOk}
use gocode.Agent.Drive

abbrev call_item : String → String → List Received
call_item name arguments =
    item (
      ok (
        ChatStreamEvent.tool_call_delta (record {
          index = 0;
          id = some name;
          name_delta = some name;
          arguments_delta = some arguments;
        })))
    ∷ item (ok (ChatStreamEvent.finished FinishReason.tool_calls))
    ∷ []

-- What the provider streams in a turn.
abbrev script : ℕ → List Received
script zero = call_item "write_file" "a.rs"
script (suc zero) = call_item "run_command" "cargo test"
script (suc (suc n)) = item (ok (ChatStreamEvent.text_delta "done")) ∷ []

-- The world is the number of turns so far.
abbrev scripted : World ℕ Sample
scripted = record {
  is_cancelled = λ w. (false, w);
  stream_chat = λ request w. (ok (script w), suc w);
  registered = λ name. true;
  definitions = [];
  execute =
      λ call w. (if str_eq call.name "write_file" then ok written else ok tests_passed, [], w);
  read_file = λ path w. none;
  notify = λ change w. w;
}

abbrev printers : Printers
printers = record { call_label = λ n. "call"; exit_code_text = λ code. "None" }

abbrev small_limits : AgentLimits
small_limits = record {
  max_response_chars = 100;
  max_turns = 5;
  max_total_tool_calls = 4;
  max_tool_calls_per_turn = 2;
  max_consecutive_failures = 3;
}

abbrev a_request : AgentRequest Sample
a_request = record {
  prompt = "fix it";
  model = "m";
  instructions = some "be careful";
  project_overview = none;
  skills_summary = some " ";
  tools_enabled = true;
  reasoning_effort = none;
  personality = PersonalityName.concise;
  history = [];
}

abbrev a_run : Option (Ran sample_json printers scripted small_limits a_request)
a_run = run sample_json printers scripted small_limits a_request "r" 0

build_request-IsOrdered_example :
    let request =
      build_request
        (record (context_of a_request) { personality = PersonalityName.mentor })
        (ChatMessage.user "hi" ∷ [])
        [] in
    (request.messages
      ≡ ChatMessage.system system_prompt
        ∷ (map (as_system Sample) (present Sample (given Sample (context_of a_request)))
            ++ ChatMessage.system
                (format (style_title ∷ personality_instruction PersonalityName.mentor ∷ []))
              ∷ ChatMessage.user "hi"
              ∷ []))
    × (request.tools ≡ [])
    × (request.model ≡ "m")
    × (request.reasoning_effort ≡ none)
build_request-IsOrdered_example =
    build_request-IsOrdered Sample (context_of a_request) (ChatMessage.user "hi" ∷ []) []
      PersonalityName.mentor

abbrev formats : Formats Sample
formats = Drive.formats sample_json printers scripted small_limits a_request

run_turn-IsBounded_example :
    BoundedIfOk scripted formats small_limits
      (run_turn scripted formats small_limits (context_of a_request) [] [] [] 0).0
run_turn-IsBounded_example =
    run_turn-IsBounded scripted formats small_limits (context_of a_request) [] [] [] 0

abbrev Run : Type 0
Run = Option (Ran sample_json printers scripted small_limits a_request)

abbrev events_of : Run → List (AgentEvent Sample)
events_of none = []
events_of (some (outcome, events, w)) = events

abbrev no_completion : AgentCompletion Sample
no_completion = record {
  run_id = "";
  final_text = "";
  stats = default_stats;
  history = [];
  termination = normal;
}

abbrev completion_of : Run → AgentCompletion Sample
completion_of (some (ok completion, events, w)) = completion
completion_of _ = no_completion

a_run_completes : a_run ≡ some (ok (completion_of a_run), events_of a_run, 3)
unfolding run gocode.Agent.Landing.drive Drive.drive_loop Drive.turn_step Drive.initial run_turn
    gocode.Agent.Turn.receive_all gocode.Agent.Turn.receive gocode.ToolCalls.apply
    gocode.Base.SortedMap.lookup gocode.ToolCalls.is_oversized gocode.ToolCalls.exceeds
    gocode.Agent.Turn.close_turn Drive.after_turn gocode.ToolCalls.finish
    gocode.Base.SortedMap.insert gocode.Agent.Step.call_steps gocode.Agent.Calls.candidate_paths
    gocode.Agent.Calls.capture_before_snapshots gocode.Agent.Calls.execute_tool
    gocode.Agent.Calls.lookup_path gocode.Agent.Calls.record_changes build_request
    gocode.Agent.Landing.conclude gocode.Agent.Step.after_result gocode.Agent.Step.call_step
    gocode.Agent.Step.check_limits gocode.Agent.Step.observe_result gocode.Agent.Step.push_log
    gocode.Agent.Step.push_result gocode.Agent.Step.requested gocode.Agent.Step.signature_eq
    gocode.Agent.Step.tool_evidence_signature gocode.Agent.Step.tool_result gocode.Paths.insert_path
    gocode.Progress.blocks_edit gocode.Progress.has_no_progress gocode.Progress.is_editing_call
    gocode.Progress.is_validation_call gocode.Progress.is_validation_command gocode.Progress.observe
    gocode.Progress.take_recovery_reminder gocode.Progress.validation_succeeded
    gocode.ToolCalls.extended gocode.Progress.observe_exploration_result gocode.Base.trim
    gocode.Paths.components gocode.ToolCalls.finish_call
a_run_completes = refl

a_run_is_normal : (completion_of a_run).termination ≡ normal
unfolding run gocode.Agent.Landing.drive Drive.drive_loop Drive.turn_step Drive.initial run_turn
    gocode.Agent.Turn.receive_all gocode.Agent.Turn.receive gocode.ToolCalls.apply
    gocode.Base.SortedMap.lookup gocode.ToolCalls.is_oversized gocode.ToolCalls.exceeds
    gocode.Agent.Turn.close_turn Drive.after_turn gocode.ToolCalls.finish
    gocode.Base.SortedMap.insert gocode.Agent.Step.call_steps gocode.Agent.Calls.candidate_paths
    gocode.Agent.Calls.capture_before_snapshots gocode.Agent.Calls.execute_tool
    gocode.Agent.Calls.lookup_path gocode.Agent.Calls.record_changes build_request
    gocode.Agent.Landing.conclude gocode.Agent.Step.after_result gocode.Agent.Step.call_step
    gocode.Agent.Step.check_limits gocode.Agent.Step.observe_result gocode.Agent.Step.push_log
    gocode.Agent.Step.push_result gocode.Agent.Step.requested gocode.Agent.Step.signature_eq
    gocode.Agent.Step.tool_evidence_signature gocode.Agent.Step.tool_result gocode.Paths.insert_path
    gocode.Progress.blocks_edit gocode.Progress.has_no_progress gocode.Progress.is_editing_call
    gocode.Progress.is_validation_call gocode.Progress.is_validation_command gocode.Progress.observe
    gocode.Progress.take_recovery_reminder gocode.Progress.validation_succeeded
    gocode.ToolCalls.extended gocode.Progress.observe_exploration_result gocode.Base.trim
    gocode.Paths.components gocode.ToolCalls.finish_call
a_run_is_normal = refl

run_settled_example :
    ¬ SetAtLast
      (changes_files sample_json)
      (validates_well sample_json)
      (trace no_calls (events_of a_run)).observed
run_settled_example =
    run_settled sample_json printers scripted small_limits a_request "r" 0 3 (completion_of a_run)
      (events_of a_run) a_run_completes a_run_is_normal

run_starts_example : AllMayRun sample_json no_calls (events_of a_run)
run_starts_example =
    run_starts sample_json printers scripted small_limits a_request "r" 0 3
      (ok (completion_of a_run)) (events_of a_run) a_run_completes
