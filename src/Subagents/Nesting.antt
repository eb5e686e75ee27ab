-- ===== src/Subagents/Nesting.antt =====
-- crates/gocode-agent/src/agent_spawn_tool.rs, the tool by which a subagent spawns a child, and
-- `tools_for` of crates/gocode-agent/src/subagent_manager.rs, which decides who has it.
use gocode.Base.{
  ℕ, suc, ltb, leb, Bool, false, not, ◌||◌, Option, none, some, [], ◌∷◌, String, if◌then◌else◌,
  format, unwrap_or, Result, ok, err,
}
use gocode.Contract.{
  ToolError, invalid_arguments, ToolResult, failed_result, cancelled_result, success_result,
  new_output,
}
use gocode.Json.{Json}
use gocode.Subagents.{
  SubagentMode, parse_mode, SubagentRecord, SubagentResult, is_terminal, status_label,
}
use gocode.Subagents.Spawn.{
  SubagentLimits, SubagentError, SpawnRequest, subagent_error_text, max_subagent_depth,
  min_concurrency_for_nesting, short_id,
}

-- Whether `tools_for` adds the tool.
unfoldable pub may_nest : SubagentLimits → SubagentRecord → Bool
may_nest limits r =
    not (leb max_subagent_depth r.depth || ltb limits.max_concurrent min_concurrency_for_nesting)

abbrev pub and_then {ℓ κ} : {A : Type ℓ} {B : Type κ} → Option A → (A → Option B) → Option B
and_then none f = none
and_then (some a) f = f a

abbrev pub child_of : SubagentRecord → String → SubagentMode → Bool → SpawnRequest
child_of parent task mode worktree_requested = record {
  parent_session_id = parent.parent_session_id;
  task = task;
  mode = mode;
  model = parent.model;
  worktree_requested = worktree_requested;
  parent_permission_mode = parent.permission_mode;
  depth = suc parent.depth;
  parent_subagent_id = some parent.id;
}

module _ {V : Type 0} (json : Json V) (as_bool : V → Option Bool) where
  abbrev requested :
      SubagentRecord → Bool → Option String → Option SubagentMode → Result ToolError SpawnRequest
  requested parent worktree none mode = err (invalid_arguments "\"task\" is required")
  requested parent worktree (some task) none =
      err (invalid_arguments "\"mode\" must be one of research, plan, implement, review")
  requested parent worktree (some task) (some mode) = ok (child_of parent task mode worktree)

  -- The request that the arguments of a call stand for.
  unfoldable pub child_request : SubagentRecord → V → Result ToolError SpawnRequest
  child_request parent input =
      requested parent (unwrap_or false (and_then (json.get input "worktree") as_bool))
        (and_then (json.get input "task") json.as_str)
        (and_then (and_then (json.get input "mode") json.as_str) parse_mode)

-- A spawn that is refused is the result of the call.
unfoldable pub refused_child : (ℕ → String) → String → SubagentError → ToolResult
unfolding subagent_error_text
refused_child decimal call_id error =
    failed_result call_id
      (format ("could not spawn child subagent: " ∷ subagent_error_text decimal error ∷ []))

abbrev pub summary_of : SubagentRecord → Option SubagentResult → String
summary_of r none = format ("(no result; status: " ∷ status_label r.status ∷ ")" ∷ [])
summary_of r (some result) = result.summary

abbrev child_result : String → String → Option SubagentRecord → Option ToolResult
child_result call_id id none = none
child_result call_id id (some r) =
    if is_terminal r.status
    then some (
        success_result call_id (
          new_output (
            format (
              "Child subagent "
              ∷ short_id id
              ∷ " finished: "
              ∷ status_label r.status
              ∷ ". "
              ∷ summary_of r r.result
              ∷ []))))
    else none

-- One round of the wait for the child: its cancellation comes first.
unfoldable pub poll_child : String → String → Bool → Option SubagentRecord → Option ToolResult
unfolding short_id
poll_child call_id id is_cancelled saved =
    if is_cancelled then some (cancelled_result call_id) else child_result call_id id saved
