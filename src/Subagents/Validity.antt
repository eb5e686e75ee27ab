-- ===== src/Subagents/Validity.antt =====
-- The invariant of crates/gocode-agent/src/subagent_manager.rs holds in every state that the
-- supervisor and the tasks reach.
use gocode.Base.{
  ℕ, ◌+◌, ◌∷◌, ◌≡◌, inl, inr, refl, sym, ap, subst, ◌∙◌, true, false, Option, none, some, List,
  String, str_eq, eq_iff, Bool-cases, arith,
}
use mathlib.Core.Option.{some-injective}
use gocode.Paths.{FilePath}
use gocode.Subagents.{
  SubagentRecord, SubagentResult, is_terminal, set_status, supervisor, push_message,
}
use gocode.Subagents.Spawn.{SubagentLimits, SpawnRequest, SpawnWorld, fresh_record, made_from}
use gocode.Subagents.Workers.{Worker, closing, is_closing, holds, holders, take_worker}
use gocode.Subagents.Workers.Taken.{taken-Parts, All-taken}
use gocode.Subagents.Manager.{Map, Manager, put, new_manager}
use gocode.Subagents.Tasks.{with_result}
use gocode.Subagents.Steps.{here, next, Reachable}
use gocode.Subagents.Change.{
  Restated, same, restated, Followed, unchanged, followed, Change, nothing, noted, dropped, entered,
  moves, ends, left, IsSpawned, EndsWell,
}
use gocode.Subagents.Change.Entering.{Reachable-AllMade}
use gocode.Subagents.Change.Requests.{Step-Change}
use gocode.Subagents.Invariant.{
  IsValid, IsValidManager, IsGoing, AgreesBut, put-AgreesBut, put_same, replaced, removed,
  rerecorded, entered_valid,
}

Restated-id : (r r' : SubagentRecord) → Restated r r' → r'.id ≡ r.id
Restated-id r r' (same e) = ap (λ r. r.id) e
Restated-id r r' (restated now status e) = ap (λ r. r.id) e

-- A finished record is in the state that ends it.
pub with_result_status :
    (result : Option SubagentResult) (r : SubagentRecord)
    → ((with_result result r).id ≡ r.id) × ((with_result result r).status ≡ r.status)
with_result_status none r = (refl, refl)
with_result_status (some result) r = (refl, refl)

put_elsewhere :
    (id key : String) (o : Option SubagentRecord) (records : Map SubagentRecord)
    (r : SubagentRecord)
    → str_eq id key ≡ false
    → put id o records key ≡ some r
    → records key ≡ some r
put_elsewhere id key o records r off e = rw off at e

some-ne-none : {r : SubagentRecord} → none ≡ some r → ⊥
some-ne-none e = cc e

put_here :
    (id key : String) (o : Option SubagentRecord) (records : Map SubagentRecord)
    → str_eq id key ≡ true
    → put id o records key ≡ o
put_here id key o records at = rw at refl

spawned_going :
    (request : SpawnRequest) (world : SpawnWorld) (r : SubagentRecord) (claimed : List FilePath)
    → IsSpawned request world claimed r
    → is_terminal r.status ≡ false
unfolding fresh_record
spawned_going request world r claimed made =
    ap (λ r. is_terminal r.status) (made_from (fresh_record request world) r world claimed made.1).0

module _ {V : Type 0} (limits : SubagentLimits) where
  moved_valid :
      (records : Map SubagentRecord) (permits : ℕ) (workers : List (Worker V)) (m' : Manager V)
      → m'.records ≡ records
      → m'.permits ≡ permits
      → m'.workers ≡ workers
      → IsValid limits records permits workers
      → IsValidManager limits m'
  moved_valid records permits workers m' r p w valid =
      subst (λ records. IsValid limits records m'.permits m'.workers) (sym r)
        (subst (λ permits. IsValid limits records permits m'.workers) (sym p)
          (subst (IsValid limits records permits) (sym w) valid))

  -- The record of a task that goes on.
  going_record :
      (m : Manager V) (records' : Map SubagentRecord) (id : String) (w : Worker V)
      (rest : List (Worker V))
      → IsValidManager limits m
      → take_worker id m.workers ≡ some (w, rest)
      → is_closing w.phase ≡ false
      → Followed m.records w.task records'
      → AgreesBut id m.records records'
        × ((r : SubagentRecord)
            → records' id ≡ some r
            → (r.id ≡ id) × (is_terminal r.status ≡ false))
  going_record m records' id w rest valid taken goes_on (unchanged e) =
      let named = (taken-Parts id m.workers rest w taken).0 in
      let going = (All-taken (IsGoing m.records) id m.workers rest w taken valid.going).0 in
      (
        λ key differs. ap (λ (records : Map SubagentRecord). records key) e,
        λ r h.
            let was : m.records id ≡ some r =
              sym (ap (λ (records : Map SubagentRecord). records id) e) ∙ h in
            (valid.keyed id r was, going.0 r (ap m.records named ∙ was) ∙ goes_on),
      )
  going_record m records' id w rest valid taken goes_on (followed now status going e) =
      let named = (taken-Parts id m.workers rest w taken).0 in
      let new : Map SubagentRecord =
        put w.task.id (some (set_status now status w.task)) m.records in
      (
        λ key differs.
            ap (λ (records : Map SubagentRecord). records key) e
            ∙ put-AgreesBut w.task.id _ m.records key (λ e. differs (sym named ∙ e)),
        λ r h.
            let same_record : set_status now status w.task ≡ r = some-injective _ r (
              sym (put_same w.task.id (some (set_status now status w.task)) m.records)
              ∙ ap new named
              ∙ sym (ap (λ (records : Map SubagentRecord). records id) e)
              ∙ h) in
            (
              sym (ap (λ r. r.id) same_record) ∙ named,
              subst (λ r. is_terminal r.status ≡ false) same_record going,
            ),
      )

  pub Change-IsValid :
      (m m' : Manager V) → Change m m' → IsValidManager limits m → IsValidManager limits m'
  Change-IsValid m m' (nothing r p w) valid =
      moved_valid m.records m.permits m.workers m' r p w valid
  Change-IsValid m m' (noted id text now r was going rs p w) valid =
      moved_valid _ m.permits m.workers m' rs p w (
        rerecorded limits m.records (put id (some (push_message now supervisor text r)) m.records)
          m.permits m.workers valid
          (λ key r' e. elim (Bool-cases (str_eq id key)) [
            | inl at ↦
                let found = some-injective _ r' (sym (put_here id key _ m.records at) ∙ e) in
                (
                  r,
                  sym (ap m.records ((eq_iff id key).0 at)) ∙ was,
                  sym (ap (λ r. r.id) found),
                  sym (ap (λ r. is_terminal r.status) found),
                )
            | inr off ↦ (r', put_elsewhere id key _ m.records r' off e, refl, refl)
          ]))
  Change-IsValid m m' (dropped id rs p w) valid = moved_valid _ m.permits m.workers m' rs p w (
      rerecorded limits m.records (put id none m.records) m.permits m.workers valid (λ key r' e.
        elim (Bool-cases (str_eq id key)) [
          | inl at ↦ absurd (some-ne-none (sym (put_here id key _ m.records at) ∙ e))
          | inr off ↦ (r', put_elsewhere id key _ m.records r' off e, refl, refl)
        ]))
  Change-IsValid m m' (entered r made fresh rs p w) valid = moved_valid _ m.permits _ m' rs p w (
      entered_valid limits m.records m.permits m.workers r valid
        (spawned_going made.request made.world r made.claimed made.spawned) fresh.1)
  Change-IsValid m m' (moves id v v' rest taken restates goes_on goes_on' well follows slots w)
        valid =
      let (agrees, new) = going_record m m'.records id v rest valid taken goes_on follows in
      moved_valid m'.records m'.permits _ m' refl refl w (
        replaced limits m.records m'.records m.permits m'.permits m.workers rest id v v' valid taken
          (Restated-id v.task v'.task restates ∙ (taken-Parts id m.workers rest v taken).0) well
          slots agrees (λ r h. ((new r h).0, (new r h).1 ∙ sym goes_on')))
  Change-IsValid m m' (ends id now status result v rest taken at rs p w) valid =
      let named = (taken-Parts id m.workers rest v taken).0 in
      let final : is_terminal status ≡ true =
        subst EndsWell at
          (All-taken (IsGoing m.records) id m.workers rest v taken valid.going).0.1 in
      let end = with_result result (set_status now status v.task) in
      let kept = with_result_status result (set_status now status v.task) in
      let records' : Map SubagentRecord = put v.task.id (some end) m.records in
      moved_valid records' m.permits (record { task = end; phase = closing } ∷ rest) m' rs p w (
        replaced limits m.records records' m.permits m.permits m.workers rest id v
          (record { task = end; phase = closing }) valid taken (kept.0 ∙ named) tt
          (ap (λ n. m.permits + n) (sym (ap holds at)))
          (λ key differs. put-AgreesBut v.task.id _ m.records key (λ e. differs (sym named ∙ e)))
          (λ r h.
            let found : end ≡ r =
              some-injective end r
                (sym (put_same v.task.id (some end) m.records) ∙ ap records' named ∙ h) in
            (
              sym (ap (λ r. r.id) found) ∙ kept.0 ∙ named,
              sym (ap (λ r. is_terminal r.status) found) ∙ ap is_terminal kept.1 ∙ final,
            )))
  Change-IsValid m m' (left id v rest taken at rs p w) valid =
      moved_valid m.records _ rest m' rs p w
        (removed limits m.records m.permits m.workers rest id v valid taken at)

  new_manager-IsValid : IsValidManager limits (new_manager {V = V} limits)
  unfolding new_manager holders
  new_manager-IsValid = record {
    slots_used = omega arith;
    unique = tt;
    keyed = λ id r e. cc e;
    behind = λ id r e going. cc e;
    going = tt;
  }

  -- In every state that spawns, messages, stops, deletions and the steps of the tasks lead to, in any
  -- order, the free slots and the slots of the tasks make up the configured number, no two tasks share an
  -- identifier, a record that is not final has a task, and a record that a task has is final exactly while
  -- the task has only its end to announce.
  pub Reachable-IsValid :
      (parse : String → Option SubagentResult) {m : Manager V}
      → Reachable parse limits m
      → IsValidManager limits m
  Reachable-IsValid parse here = new_manager-IsValid
  Reachable-IsValid parse (next {t = t} {u = u} reach step) =
      Change-IsValid t u (Step-Change parse t u (Reachable-AllMade parse limits reach) step)
        (Reachable-IsValid parse reach)
