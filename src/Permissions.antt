-- ===== src/Permissions.antt =====
-- crates/gocode-tools/src/permissions.rs: the risk of a command, the permission policies, and
-- `PermissionContext::authorize`. The proofs are in the modules below.
pub mod Risk
pub mod Modes
pub mod Gate
mod Tests
use gocode.Base.{
  Bool, true, false, Option, none, some, List, [], ◌∷◌, String, str_eq, if◌then◌else◌, format, join,
  trim, any, is_some_and, to_ascii_lowercase, Result, ok, err,
}
use gocode.Paths.{FilePath, display, parent, extension, normal, cur_dir}

pub data CommandRisk : Type 0 where
  low medium high : CommandRisk

pub data PermissionScope : Type 0 where
  read write : PermissionScope
  command : CommandRisk → PermissionScope

unfoldable pub label : PermissionScope → String
label read = "leitura"
label write = "alterações de arquivo"
label (command low) = "comandos de baixo risco"
label (command medium) = "comandos de risco médio"
label (command high) = "comandos de alto risco"

pub data PermissionAction : Type 0 where
  read_only : PermissionAction
  write : FilePath → PermissionAction
  command : String → List String → FilePath → CommandRisk → PermissionAction

pub record PermissionRequest : Type 0 where
  pub summary : String
  pub working_directory : FilePath
  pub scope : PermissionScope

pub data PermissionResponse : Type 0 where
  allow_once allow_always deny : PermissionResponse

pub data PermissionDecision : Type 0 where
  allow : PermissionDecision
  ask : PermissionRequest → PermissionDecision
  deny : String → PermissionDecision

unfoldable pub evaluate_command_risk :
    String → List String → FilePath → CommandRisk → PermissionDecision
evaluate_command_risk program args cwd low = allow
evaluate_command_risk program args cwd medium = ask (record {
  summary = trim (format ("run: " ∷ program ∷ " " ∷ join " " args ∷ []));
  working_directory = cwd;
  scope = PermissionScope.command medium;
})
evaluate_command_risk program args cwd high =
    PermissionDecision.deny
      (format (program ∷ " is classified high-risk and requires an explicit, narrower tool" ∷ []))

abbrev or_path : FilePath → Option FilePath → FilePath
or_path path none = path
or_path path (some dir) = dir

unfoldable pub request_for : PermissionAction → PermissionRequest
request_for read_only = record {
  summary = "read project files";
  working_directory = cur_dir ∷ [];
  scope = read;
}
request_for (PermissionAction.write path) = record {
  summary = format ("write: " ∷ display path ∷ []);
  working_directory = or_path path (parent path);
  scope = PermissionScope.write;
}
request_for (PermissionAction.command program args cwd risk) = record {
  summary = trim (format ("run: " ∷ program ∷ " " ∷ join " " args ∷ []));
  working_directory = cwd;
  scope = PermissionScope.command risk;
}

abbrev plan_writable_extensions : List String
plan_writable_extensions =
    "md" ∷ "markdown" ∷ "txt" ∷ "text" ∷ "rst" ∷ "adoc" ∷ "json" ∷ "yaml" ∷ "yml" ∷ "toml" ∷ "csv"
    ∷ "log" ∷ []

abbrev eq_ignore_ascii_case : String → String → Bool
eq_ignore_ascii_case a b = str_eq (to_ascii_lowercase a) (to_ascii_lowercase b)

unfoldable pub is_plan_writable : FilePath → Bool
is_plan_writable path =
    is_some_and (λ ext. any (λ allowed. eq_ignore_ascii_case ext allowed) plan_writable_extensions)
      (extension path)

-- `DefaultPermissionPolicy`, for `editing_enabled`.
unfoldable pub default_policy : Bool → PermissionAction → PermissionDecision
default_policy editing_enabled (PermissionAction.write path) =
    if editing_enabled
    then allow
    else PermissionDecision.deny
        (format ("editing is not authorized for this task; cannot write " ∷ display path ∷ []))
default_policy editing_enabled read_only = allow
default_policy editing_enabled (PermissionAction.command program args cwd risk) = allow

-- The scopes of a session that the user chose to allow always: `BTreeSet<PermissionScope>`.
abbrev pub Scopes : Type 0
Scopes = List PermissionScope

abbrev pub scope_eq : PermissionScope → PermissionScope → Bool
scope_eq read read = true
scope_eq write write = true
scope_eq (command low) (command low) = true
scope_eq (command medium) (command medium) = true
scope_eq (command high) (command high) = true
scope_eq _ _ = false

unfoldable pub contains_scope : PermissionScope → Scopes → Bool
contains_scope scope allowed = any (scope_eq scope) allowed

-- The `match` of `ApprovePermissionPolicy`.
abbrev approve_unless_risky : PermissionAction → PermissionDecision
approve_unless_risky (PermissionAction.command program args cwd medium) =
    ask (request_for (PermissionAction.command program args cwd medium))
approve_unless_risky (PermissionAction.command program args cwd high) =
    ask (request_for (PermissionAction.command program args cwd high))
approve_unless_risky _ = allow

-- `ApprovePermissionPolicy`, for the scopes behind its lock.
unfoldable pub approve_policy : Scopes → PermissionAction → PermissionDecision
approve_policy always_allowed action =
    if contains_scope (request_for action).scope always_allowed
    then allow
    else approve_unless_risky action

-- `ManualPermissionPolicy`.
unfoldable pub manual_policy : Scopes → PermissionAction → PermissionDecision
manual_policy always_allowed action =
    if contains_scope (request_for action).scope always_allowed
    then allow
    else ask (request_for action)

-- `PlanPermissionPolicy`.
unfoldable pub plan_policy : PermissionAction → PermissionDecision
unfolding evaluate_command_risk
plan_policy read_only = allow
plan_policy (PermissionAction.write path) =
    if is_plan_writable path
    then allow
    else PermissionDecision.deny (
        format (
          "plan mode only allows writing documentation or notes files; cannot write "
          ∷ display path
          ∷ []))
plan_policy (PermissionAction.command program args cwd risk) =
    evaluate_command_risk program args cwd risk

-- `ApproveEverythingPolicy`.
unfoldable pub approve_everything_policy : PermissionAction → PermissionDecision
approve_everything_policy read_only = allow
approve_everything_policy (PermissionAction.write path) =
    ask (request_for (PermissionAction.write path))
approve_everything_policy (PermissionAction.command program args cwd risk) =
    ask (request_for (PermissionAction.command program args cwd risk))

abbrev answered : PermissionRequest → PermissionResponse → Result String (Option PermissionRequest)
answered request allow_once = ok (some request)
answered request allow_always = ok (some request)
answered request PermissionResponse.deny = err "the user denied this action"

abbrev resolved :
    (PermissionRequest → PermissionResponse)
    → PermissionDecision
    → Result String (Option PermissionRequest)
resolved resolver allow = ok none
resolved resolver (PermissionDecision.deny reason) = err reason
resolved resolver (ask request) = answered request (resolver request)

-- `PermissionContext::authorize`, for a policy and the answers of its resolver.
unfoldable pub authorize :
    (PermissionAction → PermissionDecision)
    → (PermissionRequest → PermissionResponse)
    → PermissionAction
    → Result String (Option PermissionRequest)
authorize policy resolver action = resolved resolver (policy action)

-- `AlwaysDenyResolver`.
unfoldable pub always_deny : PermissionRequest → PermissionResponse
always_deny request = PermissionResponse.deny
