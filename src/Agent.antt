-- ===== src/Agent.antt =====
-- crates/gocode-agent/src: the limits (limits.rs), the lifecycle states (state.rs), the errors
-- (error.rs) and the events (events.rs) of an agent run, and the conversation that it keeps
-- (crates/gocode-core/src/lib.rs). The loop that drives a run is in the modules below.
pub mod Context
pub mod World
pub mod Turn
pub mod Calls
pub mod Step
pub mod Drive
pub mod Landing
pub mod Counters
pub mod Bounds
pub mod Totality
pub mod Totals
pub mod Trace
pub mod Tracking
pub mod Silence
pub mod Rounds
pub mod Outcome
pub mod Requests
pub mod Responses
mod Tests
use gocode.Base.{ℕ, ◌*◌, Bool, true, false, Option, none, some, List, [], ◌∷◌, String}
use gocode.Paths.{FilePath}
use gocode.Contract.{ToolCall, ToolResult, FileChange}
use gocode.ToolCalls.{ToolCallDelta}
use gocode.Undo.{FileSnapshot}

pub record AgentLimits : Type 0 where
  pub max_response_chars : ℕ
  pub max_turns : ℕ
  pub max_total_tool_calls : ℕ
  pub max_tool_calls_per_turn : ℕ
  pub max_consecutive_failures : ℕ

abbrev pub default_limits : AgentLimits
default_limits = record {
  max_response_chars = 64 * 1024;
  max_turns = 100;
  max_total_tool_calls = 150;
  max_tool_calls_per_turn = 10;
  max_consecutive_failures = 3;
}

pub data AgentLimit : Type 0 where
  response_too_large max_turns max_total_tool_calls max_tool_calls_per_turn : AgentLimit
  consecutive_failures repeated_tool_call validation_pending no_progress : AgentLimit
  tool_call_payload_too_large : AgentLimit

-- `Display for AgentLimit`.
unfoldable pub limit_text : AgentLimit → String
limit_text response_too_large = "the provider response exceeded the maximum size"
limit_text max_turns = "the maximum number of turns was reached"
limit_text max_total_tool_calls = "the maximum number of tool calls was reached"
limit_text max_tool_calls_per_turn = "too many tool calls were requested in one turn"
limit_text consecutive_failures = "too many tool calls failed consecutively"
limit_text repeated_tool_call = "the same tool call repeated with the same arguments"
limit_text validation_pending = "a source change still needs validation"
limit_text no_progress = "exploration stopped producing new evidence"
limit_text tool_call_payload_too_large = "the provider sent an oversized tool-call payload"

pub data AgentState : Type 0 where
  idle preparing inference waiting_for_permission executing_tools finalizing : AgentState
  completed cancelled failed : AgentState

-- `ProviderError` of crates/gocode-core/src/lib.rs.
pub data ProviderError : Type 0 where
  missing_credential invalid_credential timeout rate_limited cancelled : ProviderError
  network model_not_found unsupported_capability : String → ProviderError
  invalid_request invalid_response : String → ProviderError
  server : Option ℕ → String → ProviderError

pub data AgentError : Type 0 where
  provider : ProviderError → AgentError
  context : String → AgentError
  limit_reached : AgentLimit → AgentError
  cancelled : AgentError
  internal : String → AgentError

pub data AgentWarning : Type 0 where
  unknown_tool : String → AgentWarning
  loop_detected : String → AgentWarning
  truncated_before_content : AgentWarning
  budget_exhausted : AgentLimit → AgentWarning
  no_progress : AgentWarning

pub record AgentRunStats : Type 0 where
  pub turns : ℕ
  pub tool_calls : ℕ
  pub failed_tool_calls : ℕ
  pub last_input_tokens : Option ℕ

abbrev pub default_stats : AgentRunStats
default_stats = record {
  turns = 0;
  tool_calls = 0;
  failed_tool_calls = 0;
  last_input_tokens = none;
}

pub data TerminationReason : Type 0 where
  normal : TerminationReason
  budget_exhausted : AgentLimit → TerminationReason

-- `ChatMessage`; a `ProviderToolCall` has the fields of a `ToolCall`.
pub data ChatMessage (V : Type 0) : Type 0 where
  system user : String → ChatMessage V
  assistant : Option String → List (ToolCall V) → ChatMessage V
  tool : String → String → ChatMessage V

pub record AgentCompletion (V : Type 0) : Type 0 where
  pub run_id : String
  pub final_text : String
  pub stats : AgentRunStats
  pub history : List (ChatMessage V)
  pub termination : TerminationReason

pub data AgentEvent (V : Type 0) : Type 0 where
  started cancelled : AgentEvent V
  state_changed : AgentState → AgentEvent V
  text_delta reasoning_delta tool_started : String → AgentEvent V
  tool_requested : ToolCall V → AgentEvent V
  tool_output_chunk : String → String → AgentEvent V
  tool_finished : ToolResult → AgentEvent V
  file_changed : FileChange → AgentEvent V
  file_snapshot : FileSnapshot → AgentEvent V
  warning : AgentWarning → AgentEvent V
  completed : AgentCompletion V → AgentEvent V

pub data FinishReason : Type 0 where
  stop tool_calls length cancelled content_filter : FinishReason
  other : String → FinishReason

pub record Usage : Type 0 where
  pub input_tokens : Option ℕ
  pub output_tokens : Option ℕ
  pub reasoning_tokens : Option ℕ

-- `ChatStreamEvent` of crates/gocode-core/src/lib.rs.
pub data ChatStreamEvent : Type 0 where
  text_delta reasoning_delta request_id : String → ChatStreamEvent
  tool_call_delta : ToolCallDelta → ChatStreamEvent
  usage : Usage → ChatStreamEvent
  finished : FinishReason → ChatStreamEvent
