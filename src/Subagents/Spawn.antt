-- ===== src/Subagents/Spawn.antt =====
-- The requests of crates/gocode-agent/src/subagent_manager.rs, what `SubagentManager::spawn` refuses,
-- and the record that it makes. Git and the file system answer through `SpawnWorld`.
use gocode.Base.{
  ℕ, ltb, ◌≡◌, refl, subst, if_holds, is_some, Bool, true, false, not, ◌&&◌, ◌||◌, Option, none,
  some, List, [], ◌∷◌, ◌++◌, String, if◌then◌else◌, format, take_chars, Result, ok, err,
}
use gocode.Paths.{FilePath, normal, path_eq}
use gocode.Permissions.Modes.{PermissionMode}
use gocode.Subagents.{SubagentMode, research, allows_writes, SubagentRecord, new_record}

pub record SubagentLimits : Type 0 where
  pub max_concurrent : ℕ
  pub max_turns : ℕ
  pub max_total_tool_calls : ℕ

abbrev pub default_subagent_limits : SubagentLimits
default_subagent_limits = record { max_concurrent = 3; max_turns = 12; max_total_tool_calls = 30 }

pub data SubagentError : Type 0 where
  implement_denied_in_plan_mode worktree_requires_implement_mode : SubagentError
  worktree_in_use worktree not_found persistence : String → SubagentError
  invalid_state : String → String → SubagentError
  max_depth_exceeded : ℕ → ℕ → SubagentError

-- `Display for SubagentError`; `decimal` prints a number.
unfoldable pub subagent_error_text : (ℕ → String) → SubagentError → String
subagent_error_text decimal implement_denied_in_plan_mode =
    "plan mode only allows read-only subagents"
subagent_error_text decimal worktree_requires_implement_mode =
    "only --mode implement subagents may use a worktree"
subagent_error_text decimal (worktree_in_use name) =
    format ("worktree '" ∷ name ∷ "' is already in use" ∷ [])
subagent_error_text decimal (worktree message) =
    format ("could not create worktree: " ∷ message ∷ [])
subagent_error_text decimal (not_found id) = format ("no subagent matches '" ∷ id ∷ "'" ∷ [])
subagent_error_text decimal (invalid_state status action) =
    format ("cannot " ∷ action ∷ " a subagent that is " ∷ status ∷ [])
subagent_error_text decimal (persistence message) =
    format ("could not persist subagent: " ∷ message ∷ [])
subagent_error_text decimal (max_depth_exceeded depth max) =
    format
      ("subagent nesting depth " ∷ decimal depth ∷ " exceeds the maximum of " ∷ decimal max ∷ [])

abbrev pub max_subagent_depth : ℕ
max_subagent_depth = 2

abbrev pub min_concurrency_for_nesting : ℕ
min_concurrency_for_nesting = 2

-- The fields of a request that its record and its checks use.
pub record SpawnRequest : Type 0 where
  pub parent_session_id : String
  pub task : String
  pub mode : SubagentMode
  pub model : String
  pub worktree_requested : Bool
  pub parent_permission_mode : PermissionMode
  pub depth : ℕ
  pub parent_subagent_id : Option String

abbrev pub is_plan : PermissionMode → Bool
is_plan PermissionMode.plan = true
is_plan _ = false

unfoldable pub effective_subagent_mode : SubagentMode → PermissionMode → SubagentMode
effective_subagent_mode requested parent =
    if is_plan parent && allows_writes requested then research else requested

-- The checks before anything is made.
unfoldable pub refused : SpawnRequest → Option SubagentError
refused request =
    if ltb max_subagent_depth request.depth
    then some (max_depth_exceeded request.depth max_subagent_depth)
    else if request.worktree_requested && not (allows_writes request.mode)
    then some worktree_requires_implement_mode
    else if is_plan request.parent_permission_mode
        && (allows_writes request.mode || request.worktree_requested)
    then some implement_denied_in_plan_mode
    else none

-- What a spawn draws and what it is answered: a fresh identifier, the time, the directory of the
-- worktrees, the current branch, the worktree with its branch, and the saving of the record.
pub record SpawnWorld : Type 0 where
  pub new_id : String
  pub now : ℕ
  pub worktrees_root : Result String FilePath
  pub current_branch : Result String (Option String)
  pub create_worktree : Result String (FilePath × Option String)
  pub saved : Result String (Unit {0})

unfoldable pub short_id : String → String
unfolding take_chars
short_id id = take_chars 8 id

abbrev pub worktree_name : String → String
worktree_name id = format ("subagent-" ∷ short_id id ∷ [])

abbrev pub contains_path : FilePath → List FilePath → Bool
contains_path path [] = false
contains_path path (p ∷ paths) = path_eq p path || contains_path path paths

-- The record before a worktree.
unfoldable pub fresh_record : SpawnRequest → SpawnWorld → SubagentRecord
unfolding effective_subagent_mode
fresh_record request world =
    let mode = effective_subagent_mode request.mode request.parent_permission_mode in
    let base =
      new_record world.new_id world.now request.parent_session_id request.task mode request.model
        (not (allows_writes mode)) request.parent_permission_mode in
    record base { depth = request.depth; parent_subagent_id = request.parent_subagent_id }

-- A record or an error, with the worktrees that are claimed.
abbrev pub Claimed : Type 0
Claimed = Result SubagentError SubagentRecord × List FilePath

abbrev pub created :
    SubagentRecord → Result String (FilePath × Option String) → List FilePath → Claimed
created r (err e) claimed = (err (worktree e), claimed)
created r (ok (path, branch)) claimed =
    (ok (record r { worktree_path = some path; branch = branch }), claimed)

abbrev pub branched :
    SubagentRecord → SpawnWorld → Result String (Option String) → List FilePath → Claimed
branched r world (err e) claimed = (err (worktree e), claimed)
branched r world (ok base) claimed = created r world.create_worktree claimed

abbrev pub claim : SubagentRecord → SpawnWorld → Result String FilePath → List FilePath → Claimed
claim r world (err e) claimed = (err (worktree e), claimed)
claim r world (ok root) claimed =
    let target = root ++ normal (worktree_name r.id) ∷ [] in
    if contains_path target claimed
    then (err (worktree_in_use (worktree_name r.id)), claimed)
    else branched r world world.current_branch (target ∷ claimed)

-- A worktree for a record that may write. A claim outlives an error.
unfoldable pub with_worktree : SubagentRecord → SpawnWorld → List FilePath → Claimed
with_worktree r world claimed =
    if allows_writes r.mode then claim r world world.worktrees_root claimed else (ok r, claimed)

-- A record that is made differs from the fresh one in its worktree only, which a writer has.
abbrev pub MadeFrom : SubagentRecord → SubagentRecord → Type 0
MadeFrom r r' =
    (r' ≡ record r { worktree_path = r'.worktree_path; branch = r'.branch })
    × (allows_writes r.mode ≡ true → is_some r'.worktree_path ≡ true)

abbrev pub MadeIfOk : SubagentRecord → Result SubagentError SubagentRecord → Type 0
MadeIfOk r (ok r') = MadeFrom r r'
MadeIfOk r (err e) = Unit

created-Made :
    (r : SubagentRecord) (o : Result String (FilePath × Option String)) (claimed : List FilePath)
    → MadeIfOk r (created r o claimed).0
created-Made r (err e) claimed = tt
created-Made r (ok (path, branch)) claimed = (refl, λ _. refl)

branched-Made :
    (r : SubagentRecord) (world : SpawnWorld) (o : Result String (Option String))
    (claimed : List FilePath)
    → MadeIfOk r (branched r world o claimed).0
branched-Made r world (err e) claimed = tt
branched-Made r world (ok base) claimed = created-Made r world.create_worktree claimed

claim-Made :
    (r : SubagentRecord) (world : SpawnWorld) (o : Result String FilePath) (claimed : List FilePath)
    → MadeIfOk r (claim r world o claimed).0
claim-Made r world (err e) claimed = tt
claim-Made r world (ok root) claimed =
    if_holds (λ (c : Claimed). MadeIfOk r c.0)
      (contains_path (root ++ normal (worktree_name r.id) ∷ []) claimed) (λ _. tt)
      (λ _. branched-Made r world world.current_branch _)

with_worktree-Made :
    (r : SubagentRecord) (world : SpawnWorld) (claimed : List FilePath)
    → MadeIfOk r (with_worktree r world claimed).0
unfolding with_worktree
with_worktree-Made r world claimed =
    if_holds (λ (c : Claimed). MadeIfOk r c.0) (allows_writes r.mode)
      (λ _. claim-Made r world world.worktrees_root claimed)
      (λ reads. (refl, λ writes. cc (reads, writes)))

pub made_from :
    (r r' : SubagentRecord) (world : SpawnWorld) (claimed : List FilePath)
    → (with_worktree r world claimed).0 ≡ ok r'
    → MadeFrom r r'
made_from r r' world claimed e = subst (MadeIfOk r) e (with_worktree-Made r world claimed)
