-- ===== src/Permissions/Modes.antt =====
-- The permission modes of a session: `PermissionMode` of crates/gocode-core/src/lib.rs, the policy
-- and the resolver that crates/gocode/src/main.rs gives a run in each mode.
use gocode.Base.{
  Bool-cases, inl, inr, ◌≡◌, ◌≢◌, ◌↔◌, true, false, Option, none, some, ◌∷◌, String, arith,
  if◌then◌else◌,
}
use gocode.Permissions.{
  high, PermissionAction, PermissionDecision, PermissionRequest, PermissionResponse,
  PermissionScope, allow, allow_always, read_only, Scopes, scope_eq, contains_scope, request_for,
  default_policy, plan_policy, approve_policy, manual_policy, is_plan_writable,
}

pub data PermissionMode : Type 0 where
  auto plan approve manual : PermissionMode

unfoldable pub cycle : PermissionMode → PermissionMode
cycle auto = plan
cycle plan = approve
cycle approve = manual
cycle manual = auto

-- The `match permission_mode` that starts a run.
unfoldable pub policy_of : PermissionMode → Scopes → PermissionAction → PermissionDecision
policy_of auto scopes = default_policy true
policy_of plan scopes = plan_policy
policy_of approve scopes = approve_policy scopes
policy_of manual scopes = manual_policy scopes

-- `TuiPermissionResolver::resolve`: the answer that arrives, or a denial if the interface is gone;
-- "allow always" adds the scope of the request to the session's set.
unfoldable pub resolve :
    Option PermissionResponse → PermissionRequest → Scopes → PermissionResponse × Scopes
resolve none request scopes = (PermissionResponse.deny, scopes)
resolve (some allow_always) request scopes =
    (allow_always, if contains_scope request.scope scopes then scopes else request.scope ∷ scopes)
resolve (some response) request scopes = (response, scopes)

-- The reasons for which plan mode refuses.
abbrev pub IsPlanRefusal : PermissionAction → Type 0
IsPlanRefusal read_only = ⊥
IsPlanRefusal (PermissionAction.write path) = is_plan_writable path ≡ false
IsPlanRefusal (PermissionAction.command program args cwd risk) = risk ≡ high

-- What manual mode lets through without a question, approve mode and auto mode let through as well.
pub modes_ordered :
    (scopes : Scopes) (action : PermissionAction)
    → policy_of manual scopes action ≡ allow
    → (policy_of approve scopes action ≡ allow) × (policy_of auto scopes action ≡ allow)
unfolding policy_of manual_policy approve_policy default_policy
modes_ordered scopes action h = ground arith

-- Only plan mode refuses an action without a question, and it refuses no read: it refuses the writing
-- of a file that no plan may change, and a command whose risk is high.
pub only_plan_denies :
    (mode : PermissionMode) (scopes : Scopes) (action : PermissionAction) (reason : String)
    → policy_of mode scopes action ≡ PermissionDecision.deny reason
    → (mode ≡ plan) × IsPlanRefusal action
unfolding policy_of manual_policy approve_policy plan_policy default_policy
only_plan_denies mode scopes read_only reason h = ground arith
only_plan_denies mode scopes (PermissionAction.write path) reason h = ground arith
only_plan_denies mode scopes (PermissionAction.command program args cwd risk) reason h =
    ground arith

scope_eq_iff : (s t : PermissionScope) → (scope_eq s t ≡ true) ↔ (s ≡ t)
scope_eq_iff s t = ground arith

allow_always_grants :
    (scopes : Scopes) (request : PermissionRequest) (action : PermissionAction)
    → (request_for action).scope ≡ request.scope
    → let after = (resolve (some allow_always) request scopes).1 in
      (manual_policy after action ≡ allow) × (approve_policy after action ≡ allow)
unfolding resolve manual_policy approve_policy contains_scope
allow_always_grants scopes request action same =
    ground (arith, scope_eq_iff (request_for action).scope request.scope)

allow_always_others :
    (scopes : Scopes) (request : PermissionRequest) (action : PermissionAction)
    → (request_for action).scope ≢ request.scope
    → let after = (resolve (some allow_always) request scopes).1 in
      (manual_policy after action ≡ manual_policy scopes action)
      × (approve_policy after action ≡ approve_policy scopes action)
unfolding resolve manual_policy approve_policy contains_scope
allow_always_others scopes request action other =
    ground (arith, scope_eq_iff (request_for action).scope request.scope)

-- After the answer "allow always", manual mode and approve mode let every action through that has the
-- scope of the request, and decide on any other action as before.
pub allow_always_covers :
    (scopes : Scopes) (request : PermissionRequest) (action : PermissionAction)
    → let after = (resolve (some allow_always) request scopes).1 in
      let same = scope_eq (request_for action).scope request.scope in
      (manual_policy after action ≡ (if same then allow else manual_policy scopes action))
      × (approve_policy after action ≡ (if same then allow else approve_policy scopes action))
allow_always_covers scopes request action =
    let agree = scope_eq_iff (request_for action).scope request.scope in
    elim (Bool-cases (scope_eq (request_for action).scope request.scope)) [
      | inl e ↦ rw e (allow_always_grants scopes request action (agree.0 e))
      | inr e ↦ rw e (allow_always_others scopes request action (λ same. cc (e, agree.1 same)))
    ]
