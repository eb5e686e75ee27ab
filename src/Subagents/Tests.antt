-- ===== src/Subagents/Tests.antt =====
-- Concrete runs of the engine of subagents: one slot, and one task that is stopped in the queue or
-- times out.
use gocode.Base.{
  ◌≤◌, ◌≡◌, ◌↔◌, is_some, refl, ◌⊎◌, true, false, Option, none, some, [], ◌∷◌, ◌++◌, String, ok,
  err, unwrap_or,
}
use gocode.Paths.{FilePath, root_dir, normal}
use gocode.Permissions.{contains_scope, request_for, PermissionAction, PermissionDecision, high}
use gocode.Permissions.Modes.{PermissionMode, policy_of}
use gocode.Json.Samples.{Sample}
use gocode.Subagents.{
  SubagentRecord, SubagentResult, research, implement, parse_mode, is_terminal, stopped,
  allows_writes, set_status, new_record,
}
use gocode.Subagents.Spawn.{
  SubagentLimits, SpawnRequest, SpawnWorld, implement_denied_in_plan_mode, worktree_in_use,
}
use gocode.Subagents.Manager.{Manager, new_manager, spawn, enter, stop, cancel, send_message}
use gocode.Subagents.Tasks.{start, finish, leave}
use gocode.Subagents.Steps.{
  TaskStep, starts, finishes, leaves, spawns, enters, sends, stops, signals, works, here, next,
  Reachable,
}
use gocode.Subagents.Invariant.{IsValidManager}
use gocode.Subagents.Validity.{Reachable-IsValid}
use gocode.Subagents.Finality.{final_stays}
use gocode.Subagents.Authority.{AllConfined, Reachable-AllConfined}
use gocode.Subagents.Policy.{policy_for, policy_for_exceeds}
use gocode.Subagents.Messages.{final_messages}
use gocode.Subagents.Cost.{cost, KeepsKeys}
use gocode.Subagents.Liveness.{Run, begun, more, AllOver, CanStep, subagents_end}

abbrev one_slot : SubagentLimits
one_slot = record { max_concurrent = 1; max_turns = 2; max_total_tool_calls = 4 }

abbrev no_block : String → Option SubagentResult
no_block text = none

abbrev a_request : SpawnRequest
a_request = record {
  parent_session_id = "s";
  task = "change it";
  mode = implement;
  model = "m";
  worktree_requested = true;
  parent_permission_mode = PermissionMode.auto;
  depth = 1;
  parent_subagent_id = none;
}

abbrev trees : FilePath
trees = root_dir ∷ normal "app-worktrees" ∷ []

abbrev a_world : SpawnWorld
a_world = record {
  new_id = "12345678-9";
  now = 5;
  worktrees_root = ok trees;
  current_branch = ok none;
  create_worktree = ok (trees ++ normal "subagent-12345678" ∷ [], some "subagent-12345678");
  saved = ok tt;
}

abbrev at_first : Manager Sample
at_first = new_manager one_slot

abbrev with_spawn : Manager Sample
with_spawn = (spawn a_request a_world at_first).1

abbrev with_task : Manager Sample
with_task = unwrap_or with_spawn (enter 0 with_spawn)

abbrev with_message : Manager Sample
with_message = (send_message "12345678-9" "hurry" 6 (ok tt) with_task).1

abbrev with_request : Manager Sample
with_request = (stop "12345678-9" with_message).1

abbrev with_stop : Manager Sample
with_stop = unwrap_or with_request (cancel 0 with_request)

abbrev with_slot : Manager Sample
with_slot = unwrap_or with_stop (start "12345678-9" 7 true none with_stop)

abbrev with_end : Manager Sample
with_end = unwrap_or with_slot (finish "12345678-9" 8 true with_slot)

abbrev at_last : Manager Sample
at_last = unwrap_or with_end (leave "12345678-9" with_end)

abbrev queued_record : SubagentRecord
queued_record =
    record (new_record "12345678-9" 5 "s" "change it" implement "m" false PermissionMode.auto) {
      worktree_path = some (trees ++ normal "subagent-12345678" ∷ []);
      branch = some "subagent-12345678";
      depth = 1;
    }

abbrev last_record : SubagentRecord
last_record = set_status 8 stopped queued_record

with_task-Reachable : Reachable no_block one_slot with_task
unfolding new_manager spawn enter gocode.Subagents.Spawn.refused
    gocode.Subagents.Spawn.with_worktree gocode.Subagents.Spawn.fresh_record
    gocode.Subagents.Workers.take_worker
with_task-Reachable =
    next (next here (spawns a_request a_world refl))
      (enters 0 queued_record [] refl (refl, refl) refl)

with_stop-Reachable : Reachable no_block one_slot with_stop
unfolding start gocode.Subagents.Workers.take_worker stop cancel send_message spawn enter
    gocode.Subagents.Spawn.refused gocode.Subagents.Spawn.with_worktree
    gocode.Subagents.Spawn.fresh_record new_manager finish leave
with_stop-Reachable =
    next
      (next (next with_task-Reachable (sends "12345678-9" "hurry" 6 (ok tt) refl))
        (stops "12345678-9" refl))
      (signals 0 refl)

starts-TaskStep : TaskStep no_block with_stop with_slot
unfolding start gocode.Subagents.Workers.take_worker stop cancel send_message spawn enter
    gocode.Subagents.Spawn.refused gocode.Subagents.Spawn.with_worktree
    gocode.Subagents.Spawn.fresh_record new_manager finish leave
starts-TaskStep = starts "12345678-9" 7 true none refl

finishes-TaskStep : TaskStep no_block with_slot with_end
unfolding start gocode.Subagents.Workers.take_worker stop cancel send_message spawn enter
    gocode.Subagents.Spawn.refused gocode.Subagents.Spawn.with_worktree
    gocode.Subagents.Spawn.fresh_record new_manager finish leave
finishes-TaskStep = finishes "12345678-9" 8 true refl

leaves-TaskStep : TaskStep no_block with_end at_last
unfolding start gocode.Subagents.Workers.take_worker stop cancel send_message spawn enter
    gocode.Subagents.Spawn.refused gocode.Subagents.Spawn.with_worktree
    gocode.Subagents.Spawn.fresh_record new_manager finish leave
leaves-TaskStep = leaves "12345678-9" refl

at_last-Run : Run no_block with_stop 3 at_last
at_last-Run = more (more (more begun starts-TaskStep) finishes-TaskStep) leaves-TaskStep

at_last-Reachable : Reachable no_block one_slot at_last
at_last-Reachable =
    next (next (next with_stop-Reachable (works starts-TaskStep)) (works finishes-TaskStep))
      (works leaves-TaskStep)

denied_in_plan :
    (spawn (record a_request { parent_permission_mode = PermissionMode.plan }) a_world at_first).0
    ≡ err implement_denied_in_plan_mode
unfolding spawn gocode.Subagents.Spawn.refused
denied_in_plan = refl

claimed_twice : (spawn a_request a_world with_task).0 ≡ err (worktree_in_use "subagent-12345678")
unfolding spawn gocode.Subagents.Spawn.refused gocode.Subagents.Spawn.with_worktree
    gocode.Subagents.Spawn.fresh_record new_manager gocode.Paths.path_eq
    gocode.Subagents.Spawn.short_id enter
claimed_twice = refl

Reachable-IsValid_example : IsValidManager one_slot with_task
Reachable-IsValid_example = Reachable-IsValid one_slot no_block with_task-Reachable

final_stays_example :
    ((stop "12345678-9" at_last).1.records "12345678-9" ≡ some last_record)
    ⊎ ((stop "12345678-9" at_last).1.records "12345678-9" ≡ none)
unfolding start gocode.Subagents.Workers.take_worker stop cancel send_message spawn enter
    gocode.Subagents.Spawn.refused gocode.Subagents.Spawn.with_worktree
    gocode.Subagents.Spawn.fresh_record gocode.Subagents.Manager.update new_manager finish leave
final_stays_example =
    final_stays one_slot no_block at_last (stop "12345678-9" at_last).1 "12345678-9" last_record
      at_last-Reachable (stops "12345678-9" refl) refl refl

Reachable-AllConfined_example : AllConfined with_task.records with_task.workers
Reachable-AllConfined_example = Reachable-AllConfined no_block one_slot with_task-Reachable

final_messages_example : last_record.messages ≡ []
unfolding start gocode.Subagents.Workers.take_worker stop cancel send_message spawn enter
    gocode.Subagents.Spawn.refused gocode.Subagents.Spawn.with_worktree
    gocode.Subagents.Spawn.fresh_record gocode.Subagents.Manager.update new_manager finish leave
final_messages_example =
    final_messages no_block one_slot "12345678-9" last_record at_last-Reachable refl refl

subagents_end_example :
    (3 ≤ cost with_stop)
    × KeepsKeys with_stop at_last
    × (AllOver no_block at_last ⊎ CanStep no_block at_last)
subagents_end_example =
    subagents_end no_block one_slot with_stop at_last 3 with_stop-Reachable at_last-Run

policy_for_exceeds_example :
    let risky = PermissionAction.command "rm" ("-rf" ∷ []) trees high in
    ((policy_for implement none (PermissionAction.write trees) ≡ PermissionDecision.allow) ↔ (
      (true ≡ false) ⊎ ((allows_writes implement ≡ true) × (is_some {A = FilePath} none ≡ true))))
    × (policy_for implement none risky ≡ PermissionDecision.allow)
    × (policy_of PermissionMode.auto [] risky ≡ PermissionDecision.allow)
    × ((reason : String) × (policy_of PermissionMode.plan [] risky
          ≡ PermissionDecision.deny reason))
    × (policy_of PermissionMode.approve [] risky ≡ PermissionDecision.ask (request_for risky))
    × (policy_of PermissionMode.manual [] risky ≡ PermissionDecision.ask (request_for risky))
unfolding contains_scope
policy_for_exceeds_example =
    policy_for_exceeds implement none (PermissionAction.write trees) trees "rm" ("-rf" ∷ []) [] refl
