-- ===== src/Subagents/Policy.antt =====
-- `policy_for` of crates/gocode-agent/src/subagent_manager.rs beside the policies of the sessions that
-- spawn subagents.
use gocode.Base.{
  Bool, ◌⊎◌, ◌≡◌, ◌↔◌, refl, true, false, ◌&&◌, inl, Option, is_some, List, String, arith,
}
use gocode.Paths.{FilePath}
use gocode.Permissions.{
  PermissionScope, Scopes, PermissionAction, PermissionDecision, high, default_policy, plan_policy,
  approve_policy, manual_policy, evaluate_command_risk, contains_scope, request_for,
}
use gocode.Permissions.Modes.{PermissionMode, policy_of}
use gocode.Subagents.{SubagentMode, allows_writes}

-- `policy_for`: the policy of a task's agent, which no one is asked about.
unfoldable pub policy_for : SubagentMode → Option FilePath → PermissionAction → PermissionDecision
policy_for mode worktree_path = default_policy (allows_writes mode && is_some worktree_path)

-- The writing of a file, and everything else.
abbrev pub is_write : PermissionAction → Bool
is_write (PermissionAction.write path) = true
is_write _ = false

policy_for-allow_iff :
    (mode : SubagentMode) (worktree_path : Option FilePath) (action : PermissionAction)
    → (policy_for mode worktree_path action ≡ PermissionDecision.allow)
      ↔ ((is_write action ≡ false) ⊎ ((allows_writes mode ≡ true) × (is_some worktree_path ≡ true)))
unfolding policy_for default_policy
policy_for-allow_iff mode worktree_path PermissionAction.read_only = ground arith
policy_for-allow_iff mode worktree_path (PermissionAction.write path) = ground arith
policy_for-allow_iff mode worktree_path (PermissionAction.command program args cwd risk) =
    ground arith

-- A subagent is let do everything but write, and writes exactly where its mode is that of a writer and
-- it has a worktree. So it runs a high-risk command without a question, as only auto mode does in the
-- session that spawned it, unless the user had such commands always allowed there: plan mode denies it,
-- and approve mode and manual mode ask for it.
pub policy_for_exceeds :
    (mode : SubagentMode) (worktree_path : Option FilePath) (action : PermissionAction)
    (cwd : FilePath) (program : String) (args : List String) (scopes : Scopes)
    → contains_scope (PermissionScope.command high) scopes ≡ false
    → let risky = PermissionAction.command program args cwd high in
      ((policy_for mode worktree_path action ≡ PermissionDecision.allow) ↔ (
        (is_write action ≡ false) ⊎ ((allows_writes mode ≡ true) × (is_some worktree_path ≡ true))))
      × (policy_for mode worktree_path risky ≡ PermissionDecision.allow)
      × (policy_of PermissionMode.auto scopes risky ≡ PermissionDecision.allow)
      × ((reason : String) × (policy_of PermissionMode.plan scopes risky
            ≡ PermissionDecision.deny reason))
      × (policy_of PermissionMode.approve scopes risky ≡ PermissionDecision.ask (request_for risky))
      × (policy_of PermissionMode.manual scopes risky ≡ PermissionDecision.ask (request_for risky))
unfolding policy_of plan_policy evaluate_command_risk approve_policy manual_policy request_for
    default_policy
policy_for_exceeds mode worktree_path action cwd program args scopes unasked = (
  policy_for-allow_iff mode worktree_path action,
  (policy_for-allow_iff mode worktree_path (PermissionAction.command program args cwd high)).1
      (inl refl),
  refl,
  (_, refl),
  rw unasked refl,
  rw unasked refl,
)
