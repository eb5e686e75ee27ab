-- ===== src/Subagents/Messages.antt =====
-- The history of messages in a record of crates/gocode-agent/src/subagent_manager.rs. A task keeps the
-- record that it began with, and writes it over the one that `send_message` extends.
use gocode.Base.{
  ◌≡◌, refl, sym, ap, subst, ◌∙◌, true, inl, inr, Option, none, some, List, [], String, str_eq,
  Bool-cases, All,
}
use mathlib.Core.Option.{some-injective}
use gocode.Paths.{FilePath}
use gocode.Subagents.{SubagentRecord, SubagentResult, is_terminal, set_status}
use gocode.Subagents.Spawn.{SubagentLimits, SpawnRequest, SpawnWorld, fresh_record, made_from}
use gocode.Subagents.Workers.{Worker}
use gocode.Subagents.Workers.Taken.{All-taken}
use gocode.Subagents.Manager.{Map, Manager, put, new_manager}
use gocode.Subagents.Tasks.{with_result}
use gocode.Subagents.Steps.{here, next, Reachable}
use gocode.Subagents.Change.{
  Restated, same, restated, Followed, unchanged, followed, Change, nothing, noted, dropped, entered,
  moves, ends, left, IsSpawned,
}
use gocode.Subagents.Change.Entering.{Reachable-AllMade}
use gocode.Subagents.Change.Requests.{Step-Change}

-- The final records hold no message.
abbrev pub AllBlank : Map SubagentRecord → Type 0
AllBlank records =
    (id : String) (r : SubagentRecord)
    → records id ≡ some r
    → is_terminal r.status ≡ true
    → r.messages ≡ []

AllBlank-put :
    (records : Map SubagentRecord) (id : String) (r : SubagentRecord)
    → AllBlank records
    → (is_terminal r.status ≡ true → r.messages ≡ [])
    → AllBlank (put id (some r) records)
AllBlank-put records id r all new key r' e final = elim (Bool-cases (str_eq id key)) [
  | inl at ↦
      let found : r ≡ r' = some-injective r r' (sym (rw at refl) ∙ e) in
      subst (λ r. is_terminal r.status ≡ true → r.messages ≡ []) found new final
  | inr off ↦ all key r' (rw off at e) final
]

AllBlank-drop :
    (records : Map SubagentRecord) (id : String) → AllBlank records → AllBlank (put id none records)
AllBlank-drop records id all key r' e final = elim (Bool-cases (str_eq id key)) [
  | inl at ↦ cc (rw at at e)
  | inr off ↦ all key r' (rw off at e) final
]

Followed-AllBlank :
    (records records' : Map SubagentRecord) (task : SubagentRecord)
    → Followed records task records'
    → AllBlank records
    → AllBlank records'
Followed-AllBlank records records' task (unchanged e) all = subst AllBlank (sym e) all
Followed-AllBlank records records' task (followed now status going e) all =
    subst AllBlank (sym e)
      (AllBlank-put records task.id (set_status now status task) all (λ final. cc (final, going)))

Restated-messages : (r r' : SubagentRecord) → Restated r r' → r'.messages ≡ r.messages
Restated-messages r r' (same e) = ap (λ r. r.messages) e
Restated-messages r r' (restated now status e) = ap (λ r. r.messages) e

ended_messages :
    (result : Option SubagentResult) (r : SubagentRecord)
    → (with_result result r).messages ≡ r.messages
ended_messages none r = refl
ended_messages (some result) r = refl

spawned_messages :
    (request : SpawnRequest) (world : SpawnWorld) (claimed : List FilePath) (r : SubagentRecord)
    → IsSpawned request world claimed r
    → r.messages ≡ []
unfolding fresh_record
spawned_messages request world claimed r made =
    ap (λ r. r.messages) (made_from (fresh_record request world) r world claimed made.1).0

module _ {V : Type 0} where
  abbrev HasNone : Worker V → Type 0
  HasNone w = w.task.messages ≡ []

  abbrev pub IsBlank : Manager V → Type 0
  IsBlank m = AllBlank m.records × All HasNone m.workers

  Change-IsBlank : (m m' : Manager V) → Change m m' → IsBlank m → IsBlank m'
  Change-IsBlank m m' (nothing rs p w) (all, tasks) =
      (subst AllBlank (sym rs) all, subst (All HasNone) (sym w) tasks)
  Change-IsBlank m m' (noted id text now r was going rs p w) (all, tasks) = (
    subst AllBlank (sym rs) (AllBlank-put m.records id _ all (λ final. cc (final, going))),
    subst (All HasNone) (sym w) tasks,
  )
  Change-IsBlank m m' (dropped id rs p w) (all, tasks) =
      (subst AllBlank (sym rs) (AllBlank-drop m.records id all), subst (All HasNone) (sym w) tasks)
  Change-IsBlank m m' (entered r made fresh rs p w) (all, tasks) =
      let new = spawned_messages made.request made.world made.claimed r made.spawned in
      (
        subst AllBlank (sym rs) (AllBlank-put m.records r.id r all (λ _. new)),
        subst (All HasNone) (sym w) (new, tasks),
      )
  Change-IsBlank m m' (moves id v v' rest taken restates goes_on goes_on' well follows slots w)
        (all, tasks) =
      let old = All-taken HasNone id m.workers rest v taken tasks in
      (
        Followed-AllBlank m.records m'.records v.task follows all,
        subst (All HasNone) (sym w) (Restated-messages v.task v'.task restates ∙ old.0, old.1),
      )
  Change-IsBlank m m' (ends id now status result v rest taken at rs p w) (all, tasks) =
      let old = All-taken HasNone id m.workers rest v taken tasks in
      let blank = ended_messages result (set_status now status v.task) ∙ old.0 in
      (
        subst AllBlank (sym rs) (AllBlank-put m.records v.task.id _ all (λ _. blank)),
        subst (All HasNone) (sym w) (blank, old.1),
      )
  Change-IsBlank m m' (left id v rest taken at rs p w) (all, tasks) = (
    subst AllBlank (sym rs) all,
    subst (All HasNone) (sym w) (All-taken HasNone id m.workers rest v taken tasks).1,
  )

  Reachable-IsBlank :
      (parse : String → Option SubagentResult) (limits : SubagentLimits) {m : Manager V}
      → Reachable parse limits m
      → IsBlank m
  unfolding new_manager
  Reachable-IsBlank parse limits here = (λ id r e final. cc e, tt)
  Reachable-IsBlank parse limits (next {t = t} {u = u} reach step) =
      Change-IsBlank t u (Step-Change parse t u (Reachable-AllMade parse limits reach) step)
        (Reachable-IsBlank parse limits reach)

  -- In every reachable state, a record whose status is final holds no messages, whatever the supervisor
  -- sent to its subagent: the end of a task writes the record of its start over them.
  pub final_messages :
      (parse : String → Option SubagentResult) (limits : SubagentLimits) {m : Manager V}
      (id : String) (r : SubagentRecord)
      → Reachable parse limits m
      → m.records id ≡ some r
      → is_terminal r.status ≡ true
      → r.messages ≡ []
  final_messages parse limits id r reach was final =
      (Reachable-IsBlank parse limits reach).0 id r was final
