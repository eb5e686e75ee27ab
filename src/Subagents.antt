-- ===== src/Subagents.antt =====
-- crates/gocode-core/src/subagent.rs: the modes, the states and the record of a subagent, which is a
-- worker that runs one delegated task. Times are seconds since the epoch. The engine that runs them
-- (crates/gocode-agent/src/subagent_manager.rs) is in the modules below.
pub mod Report
pub mod Spawn
pub mod Workers
pub mod Manager
pub mod Tasks
pub mod Steps
pub mod Files
pub mod Nesting
pub mod Change
pub mod Invariant
pub mod Validity
pub mod Finality
pub mod Liveness
pub mod Cost
pub mod Authority
pub mod Policy
pub mod Messages
mod Tests
use gocode.Base.{
  ℕ, ◌-◌, Bool, true, false, Option, none, some, List, [], ◌∷◌, ◌++◌, String, str_eq, if◌then◌else◌,
}
use gocode.Paths.{FilePath}
use gocode.Permissions.Modes.{PermissionMode}

pub data SubagentMode : Type 0 where
  research plan implement review : SubagentMode

abbrev pub allows_writes : SubagentMode → Bool
allows_writes implement = true
allows_writes _ = false

abbrev pub mode_label : SubagentMode → String
mode_label research = "research"
mode_label plan = "plan"
mode_label implement = "implement"
mode_label review = "review"

unfoldable pub parse_mode : String → Option SubagentMode
parse_mode text =
    if str_eq text "research"
    then some research
    else if str_eq text "plan"
    then some plan
    else if str_eq text "implement"
    then some implement
    else if str_eq text "review"
    then some review
    else none

pub data SubagentStatus : Type 0 where
  queued running waiting_input completed failed stopped timed_out interrupted : SubagentStatus

abbrev pub is_terminal : SubagentStatus → Bool
is_terminal queued = false
is_terminal running = false
is_terminal waiting_input = false
is_terminal _ = true

abbrev pub status_label : SubagentStatus → String
status_label queued = "queued"
status_label running = "running"
status_label waiting_input = "waiting_input"
status_label completed = "completed"
status_label failed = "failed"
status_label stopped = "stopped"
status_label timed_out = "timed_out"
status_label interrupted = "interrupted"

pub data SubagentMessageRole : Type 0 where
  supervisor subagent : SubagentMessageRole

pub record SubagentMessage : Type 0 where
  pub at_unix : ℕ
  pub role : SubagentMessageRole
  pub text : String

pub record SubagentResult : Type 0 where
  pub summary : String
  pub findings : List String
  pub files_read : List String
  pub files_changed : List String
  pub commands_run : List String
  pub tests_run : List String
  pub risks : List String
  pub next_steps : List String
  pub worktree_path : Option FilePath
  pub error : Option String

abbrev pub default_result : SubagentResult
default_result = record {
  summary = "";
  findings = [];
  files_read = [];
  files_changed = [];
  commands_run = [];
  tests_run = [];
  risks = [];
  next_steps = [];
  worktree_path = none;
  error = none;
}

pub record SubagentRecord : Type 0 where
  pub id : String
  pub parent_session_id : String
  pub task_summary : String
  pub mode : SubagentMode
  pub status : SubagentStatus
  pub model : String
  pub created_at_unix : ℕ
  pub updated_at_unix : ℕ
  pub worktree_path : Option FilePath
  pub branch : Option String
  pub read_only : Bool
  pub permission_mode : PermissionMode
  pub messages : List SubagentMessage
  pub result : Option SubagentResult
  pub depth : ℕ
  pub parent_subagent_id : Option String
  pub schema_version : ℕ

-- `SubagentRecord::new`, with the identifier and the time that it draws.
abbrev pub new_record :
    String → ℕ → String → String → SubagentMode → String → Bool → PermissionMode → SubagentRecord
new_record id now parent_session_id task_summary mode model read_only permission_mode = record {
  id = id;
  parent_session_id = parent_session_id;
  task_summary = task_summary;
  mode = mode;
  status = queued;
  model = model;
  created_at_unix = now;
  updated_at_unix = now;
  worktree_path = none;
  branch = none;
  read_only = read_only;
  permission_mode = permission_mode;
  messages = [];
  result = none;
  depth = 1;
  parent_subagent_id = none;
  schema_version = 1;
}

abbrev pub push_message : ℕ → SubagentMessageRole → String → SubagentRecord → SubagentRecord
push_message now role text r = record r {
  updated_at_unix = now;
  messages = r.messages ++ record { at_unix = now; role = role; text = text } ∷ [];
}

abbrev pub set_status : ℕ → SubagentStatus → SubagentRecord → SubagentRecord
set_status now status r = record r { status = status; updated_at_unix = now }

unfoldable pub elapsed_seconds : ℕ → SubagentRecord → ℕ
elapsed_seconds now r = now - r.created_at_unix
