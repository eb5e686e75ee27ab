-- ===== src/Contract.antt =====
-- crates/gocode-tools/src/contract.rs: tool calls, results and errors. A JSON value is a parameter
-- `V`, since serde_json is not part of the repository.
pub mod Samples
use gocode.Base.{ℕ, Bool, false, Option, none, List, [], ◌∷◌, String, format}
use gocode.Paths.{FilePath, display}

-- An `i32`, as an integer: `negsuc n` is -(n + 1).
pub data ℤ : Type 0 where
  pos : ℕ → ℤ
  negsuc : ℕ → ℤ

pub record ToolDefinition (V : Type 0) : Type 0 where
  pub name : String
  pub description : String
  pub input_schema : V

pub record ToolCall (V : Type 0) : Type 0 where
  pub id : String
  pub name : String
  pub arguments : V

pub data ToolStatus : Type 0 where
  success failed cancelled denied : ToolStatus

pub record ToolOutput : Type 0 where
  pub content : String
  pub truncated : Bool

pub data ChangeKind : Type 0 where
  created modified deleted : ChangeKind

pub record FileChange : Type 0 where
  pub path : FilePath
  pub kind : ChangeKind

pub record ToolMetadata : Type 0 where
  pub duration_ms : Option ℕ
  pub affected_files : List FileChange
  pub exit_code : Option ℤ
  pub truncated : Bool

pub record ToolResult : Type 0 where
  pub call_id : String
  pub status : ToolStatus
  pub output : ToolOutput
  pub metadata : ToolMetadata

abbrev pub new_output : String → ToolOutput
new_output content = record { content = content; truncated = false }

abbrev pub default_metadata : ToolMetadata
default_metadata = record {
  duration_ms = none;
  affected_files = [];
  exit_code = none;
  truncated = false;
}

-- `ToolResult::success`, `failed`, `cancelled` and `denied`.
abbrev pub success_result : String → ToolOutput → ToolResult
success_result call_id output = record {
  call_id = call_id;
  status = success;
  output = output;
  metadata = record default_metadata { truncated = output.truncated };
}

abbrev pub failed_result : String → String → ToolResult
failed_result call_id message = record {
  call_id = call_id;
  status = failed;
  output = new_output message;
  metadata = default_metadata;
}

abbrev pub cancelled_result : String → ToolResult
cancelled_result call_id = record {
  call_id = call_id;
  status = cancelled;
  output = new_output "The operation was cancelled.";
  metadata = default_metadata;
}

abbrev pub denied_result : String → String → ToolResult
denied_result call_id reason = record {
  call_id = call_id;
  status = denied;
  output = new_output reason;
  metadata = default_metadata;
}

pub data ToolError : Type 0 where
  invalid_arguments : String → ToolError
  outside_workspace : FilePath → ToolError
  not_found : FilePath → ToolError
  permission_denied : String → ToolError
  unsupported_file_type : String → ToolError
  io : String → ToolError
  cancelled timeout : ToolError
  internal : String → ToolError

-- `Display for ToolError`.
unfoldable pub error_text : ToolError → String
error_text (invalid_arguments message) = format ("invalid arguments: " ∷ message ∷ [])
error_text (outside_workspace path) = format (display path ∷ " is outside the workspace" ∷ [])
error_text (not_found path) = format (display path ∷ " was not found" ∷ [])
error_text (permission_denied message) = format ("permission denied: " ∷ message ∷ [])
error_text (unsupported_file_type message) = format ("unsupported file: " ∷ message ∷ [])
error_text (io message) = format ("I/O error: " ∷ message ∷ [])
error_text ToolError.cancelled = "the operation was cancelled"
error_text timeout = "the operation timed out"
error_text (internal message) = format ("internal error: " ∷ message ∷ [])
