-- ===== src/Subagents/Authority.antt =====
-- Which subagents of crates/gocode-agent/src/subagent_manager.rs may write, in every reachable state.
use gocode.Base.{
  ℕ, ◌≤◌, ◌≡◌, refl, sym, ap, subst, ◌∙◌, true, false, not, inl, inr, Option, none, some, is_some,
  List, String, str_eq, Bool-cases, All, arith,
}
use mathlib.Core.Option.{some-injective}
use gocode.Paths.{FilePath}
use gocode.Subagents.{
  allows_writes, SubagentRecord, SubagentResult, SubagentStatus, set_status, push_message,
  supervisor,
}
use gocode.Subagents.Spawn.{
  SubagentLimits, SpawnRequest, SpawnWorld, refused, fresh_record, made_from, is_plan,
  effective_subagent_mode,
}
use gocode.Subagents.Workers.{Worker}
use gocode.Subagents.Workers.Taken.{All-taken}
use gocode.Subagents.Manager.{Map, Manager, put, new_manager}
use gocode.Subagents.Tasks.{with_result}
use gocode.Subagents.Steps.{here, next, Reachable}
use gocode.Subagents.Change.{
  Restated, same, restated, Followed, unchanged, followed, Change, nothing, noted, dropped, entered,
  moves, ends, left, IsSpawned,
}
use gocode.Subagents.Change.Entering.{Reachable-AllMade}
use gocode.Subagents.Change.Requests.{Step-Change}

-- A record that may write has a worktree, outside plan mode, and none is nested too deep.
pub record IsConfined (r : SubagentRecord) : Type 0 where
  pub isolated : allows_writes r.mode ≡ true → is_some r.worktree_path ≡ true
  pub authorized : allows_writes r.mode ≡ true → is_plan r.permission_mode ≡ false
  pub declared : r.read_only ≡ not (allows_writes r.mode)
  pub shallow : r.depth ≤ 2

abbrev pub AllConfined : {V : Type 0} → Map SubagentRecord → List (Worker V) → Type 0
AllConfined records workers =
    ((id : String) (r : SubagentRecord) → records id ≡ some r → IsConfined r)
    × All (λ w. IsConfined w.task) workers

refused-none :
    (request : SpawnRequest)
    → refused request ≡ none
    → (request.depth ≤ 2)
      × (is_plan request.parent_permission_mode ≡ true → allows_writes request.mode ≡ false)
unfolding refused
refused-none request h = (ground arith, λ p. ground arith)

-- The mode that a record runs in is the one that was asked for: plan mode refuses the others before.
effective_id :
    (request : SpawnRequest)
    → refused request ≡ none
    → effective_subagent_mode request.mode request.parent_permission_mode ≡ request.mode
unfolding effective_subagent_mode
effective_id request h = elim (Bool-cases (is_plan request.parent_permission_mode)) [
  | inl p ↦ rw (p, (refused-none request h).1 p) refl
  | inr p ↦ rw p refl
]

not_plan :
    (request : SpawnRequest)
    → refused request ≡ none
    → allows_writes request.mode ≡ true
    → is_plan request.parent_permission_mode ≡ false
not_plan request h writes = elim (Bool-cases (is_plan request.parent_permission_mode)) [
  | inl p ↦ cc (writes, (refused-none request h).1 p)
  | inr p ↦ p
]

fresh_record-IsConfined :
    (request : SpawnRequest) (world : SpawnWorld) (worktree_path : Option FilePath)
    (branch : Option String)
    → refused request ≡ none
    → (allows_writes (fresh_record request world).mode ≡ true → is_some worktree_path ≡ true)
    → IsConfined
        (record (fresh_record request world) { worktree_path = worktree_path; branch = branch })
unfolding fresh_record
fresh_record-IsConfined request world worktree_path branch h made = record {
  isolated = made;
  authorized =
      λ writes. not_plan request h (sym (ap allows_writes (effective_id request h)) ∙ writes);
  declared = refl;
  shallow = (refused-none request h).0;
}

spawned-IsConfined :
    (request : SpawnRequest) (world : SpawnWorld) (claimed : List FilePath) (r : SubagentRecord)
    → IsSpawned request world claimed r
    → IsConfined r
spawned-IsConfined request world claimed r made =
    let from = made_from (fresh_record request world) r world claimed made.1 in
    subst IsConfined (sym from.0)
      (fresh_record-IsConfined request world r.worktree_path r.branch made.0 from.1)

-- The state, the messages and the result of a record do not matter.
Restated-IsConfined : (r r' : SubagentRecord) → Restated r r' → IsConfined r → IsConfined r'
Restated-IsConfined r r' (same e) c = subst IsConfined (sym e) c
Restated-IsConfined r r' (restated now status e) c = subst IsConfined (sym e) (record {
  isolated = c.isolated;
  authorized = c.authorized;
  declared = c.declared;
  shallow = c.shallow;
})

ended-IsConfined :
    (now : ℕ) (status : SubagentStatus) (result : Option SubagentResult) (r : SubagentRecord)
    → IsConfined r
    → IsConfined (with_result result (set_status now status r))
ended-IsConfined now status none r c = Restated-IsConfined r _ (restated now status refl) c
ended-IsConfined now status (some result) r c = record {
  isolated = c.isolated;
  authorized = c.authorized;
  declared = c.declared;
  shallow = c.shallow;
}

noted-IsConfined :
    (now : ℕ) (text : String) (r : SubagentRecord)
    → IsConfined r
    → IsConfined (push_message now supervisor text r)
noted-IsConfined now text r c = record {
  isolated = c.isolated;
  authorized = c.authorized;
  declared = c.declared;
  shallow = c.shallow;
}

abbrev AllIn : Map SubagentRecord → Type 0
AllIn records = (id : String) (r : SubagentRecord) → records id ≡ some r → IsConfined r

AllIn-put :
    (records : Map SubagentRecord) (id : String) (r : SubagentRecord)
    → AllIn records
    → IsConfined r
    → AllIn (put id (some r) records)
AllIn-put records id r all new key r' e = elim (Bool-cases (str_eq id key)) [
  | inl at ↦ subst IsConfined (some-injective r r' (sym (rw at refl) ∙ e)) new
  | inr off ↦ all key r' (rw off at e)
]

AllIn-drop :
    (records : Map SubagentRecord) (id : String) → AllIn records → AllIn (put id none records)
AllIn-drop records id all key r' e = elim (Bool-cases (str_eq id key)) [
  | inl at ↦ cc (rw at at e)
  | inr off ↦ all key r' (rw off at e)
]

Followed-AllIn :
    (records records' : Map SubagentRecord) (task : SubagentRecord)
    → Followed records task records'
    → AllIn records
    → IsConfined task
    → AllIn records'
Followed-AllIn records records' task (unchanged e) all c = subst AllIn (sym e) all
Followed-AllIn records records' task (followed now status going e) all c = subst AllIn (sym e) (
    AllIn-put records task.id (set_status now status task) all
      (Restated-IsConfined task _ (restated now status refl) c))

module _ {V : Type 0} where
  abbrev AllOf : List (Worker V) → Type 0
  AllOf workers = All (λ w. IsConfined w.task) workers

  Change-AllConfined :
      (m m' : Manager V)
      → Change m m'
      → AllConfined m.records m.workers
      → AllConfined m'.records m'.workers
  Change-AllConfined m m' (nothing rs p w) (all, tasks) =
      (subst AllIn (sym rs) all, subst AllOf (sym w) tasks)
  Change-AllConfined m m' (noted id text now r was going rs p w) (all, tasks) = (
    subst AllIn (sym rs)
        (AllIn-put m.records id _ all (noted-IsConfined now text r (all id r was))),
    subst AllOf (sym w) tasks,
  )
  Change-AllConfined m m' (dropped id rs p w) (all, tasks) =
      (subst AllIn (sym rs) (AllIn-drop m.records id all), subst AllOf (sym w) tasks)
  Change-AllConfined m m' (entered r made fresh rs p w) (all, tasks) =
      let new = spawned-IsConfined made.request made.world made.claimed r made.spawned in
      (subst AllIn (sym rs) (AllIn-put m.records r.id r all new), subst AllOf (sym w) (new, tasks))
  Change-AllConfined m m' (moves id v v' rest taken restates goes_on goes_on' well follows slots w)
        (all, tasks) =
      let old = All-taken (λ w. IsConfined w.task) id m.workers rest v taken tasks in
      (
        Followed-AllIn m.records m'.records v.task follows all old.0,
        subst AllOf (sym w) (Restated-IsConfined v.task v'.task restates old.0, old.1),
      )
  Change-AllConfined m m' (ends id now status result v rest taken at rs p w) (all, tasks) =
      let old = All-taken (λ w. IsConfined w.task) id m.workers rest v taken tasks in
      let end = ended-IsConfined now status result v.task old.0 in
      (
        subst AllIn (sym rs) (AllIn-put m.records v.task.id _ all end),
        subst AllOf (sym w) (end, old.1),
      )
  Change-AllConfined m m' (left id v rest taken at rs p w) (all, tasks) = (
    subst AllIn (sym rs) all,
    subst AllOf (sym w) (All-taken (λ w. IsConfined w.task) id m.workers rest v taken tasks).1,
  )

  -- In every reachable state, each record and each task is confined: one that may write files has a
  -- worktree and was not spawned from plan mode, one that may not is marked as read-only,
  -- and none is nested deeper than two.
  pub Reachable-AllConfined :
      (parse : String → Option SubagentResult) (limits : SubagentLimits) {m : Manager V}
      → Reachable parse limits m
      → AllConfined m.records m.workers
  unfolding new_manager
  Reachable-AllConfined parse limits here = (λ id r e. cc e, tt)
  Reachable-AllConfined parse limits (next {t = t} {u = u} reach step) =
      Change-AllConfined t u (Step-Change parse t u (Reachable-AllMade parse limits reach) step)
        (Reachable-AllConfined parse limits reach)
