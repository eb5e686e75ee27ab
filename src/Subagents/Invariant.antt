-- ===== src/Subagents/Invariant.antt =====
-- The invariant of crates/gocode-agent/src/subagent_manager.rs: the slots in use, and the tasks
-- behind the records.
use gocode.Base.{
  ℕ, suc, ◌+◌, ◌≡◌, ◌≢◌, refl, sym, ap, subst, ◌∙◌, inl, inr, true, false, Option, some, List, ◌∷◌,
  String, str_eq, eq_iff, differs_of, false_of, All, Bool-cases, arith,
}
use mathlib.Core.Option.{some-injective}
use gocode.Subagents.{SubagentRecord, is_terminal}
use gocode.Subagents.Spawn.{SubagentLimits}
use gocode.Subagents.Workers.{
  Worker, waiting, closing, is_closing, holds, holders, take_worker, has_worker, IsOther, IsUnique,
}
use gocode.Subagents.Workers.Taken.{
  taken-Parts, taken_others, taken_keeps, All-taken, All-both, not_has_worker-All,
}
use gocode.Subagents.Manager.{Map, Manager, put, slots}
use gocode.Subagents.Change.{EndsWell}

-- The record of a task, while the manager has one, is final exactly if the task has only its end to
-- announce, and a task ends in a final state.
abbrev pub IsGoing : {V : Type 0} → Map SubagentRecord → Worker V → Type 0
IsGoing records w =
    ((r : SubagentRecord) → records w.task.id ≡ some r → is_terminal r.status ≡ is_closing w.phase)
    × EndsWell w.phase

-- The slots are free or held, each record has its own key, and behind a record that is not final
-- there is a task.
pub record IsValid {V : Type 0} (limits : SubagentLimits) (records : Map SubagentRecord)
    (permits : ℕ) (workers : List (Worker V)) : Type 0 where
  pub slots_used : permits + holders workers ≡ slots limits
  pub unique : IsUnique workers
  pub keyed : (id : String) (r : SubagentRecord) → records id ≡ some r → r.id ≡ id
  pub behind :
      (id : String) (r : SubagentRecord)
      → records id ≡ some r
      → is_terminal r.status ≡ false
      → has_worker id workers ≡ true
  pub going : All (IsGoing records) workers

abbrev pub IsValidManager : {V : Type 0} → SubagentLimits → Manager V → Type 0
IsValidManager limits m = IsValid limits m.records m.permits m.workers

-- Records that change at no task but the one that is taken.
abbrev pub AgreesBut : String → Map SubagentRecord → Map SubagentRecord → Type 0
AgreesBut id records records' = (key : String) → id ≢ key → records' key ≡ records key

pub put-AgreesBut :
    (id : String) (o : Option SubagentRecord) (records : Map SubagentRecord)
    → AgreesBut id records (put id o records)
put-AgreesBut id o records key differs = rw (false_of id key differs) refl

pub put_same :
    (id : String) (o : Option SubagentRecord) (records : Map SubagentRecord)
    → put id o records id ≡ o
put_same id o records = rw ((eq_iff id id).1 refl) refl

module _ {V : Type 0} (limits : SubagentLimits) where
  IsGoing-apart :
      (id : String) (records records' : Map SubagentRecord) (w : Worker V)
      → AgreesBut id records records'
      → IsGoing records w
      → IsOther id w
      → IsGoing records' w
  IsGoing-apart id records records' w agrees going other =
      (λ r e. going.0 r (sym (agrees w.task.id (λ e. other (sym e))) ∙ e), going.1)

  -- One task is replaced by its next state, with a record that fits it.
  pub replaced :
      (records records' : Map SubagentRecord) (permits permits' : ℕ)
      (workers rest : List (Worker V)) (id : String) (w w' : Worker V)
      → IsValid limits records permits workers
      → take_worker id workers ≡ some (w, rest)
      → w'.task.id ≡ id
      → EndsWell w'.phase
      → permits' + holds w'.phase ≡ permits + holds w.phase
      → AgreesBut id records records'
      → ((r : SubagentRecord)
          → records' id ≡ some r
          → (r.id ≡ id) × (is_terminal r.status ≡ is_closing w'.phase))
      → IsValid limits records' permits' (w' ∷ rest)
  unfolding holders
  replaced records records' permits permits' workers rest id w w' valid taken named well slots_kept
        agrees new =
      let parts = taken-Parts id workers rest w taken in
      let others = taken_others id workers rest w taken valid.unique in
      record {
        slots_used = omega (arith, parts.1, slots_kept, valid.slots_used);
        unique = (subst (λ i. All (IsOther i) rest) (sym named) others.0, others.1);
        keyed = λ key r e. elim (Bool-cases (str_eq id key)) [
          | inl at ↦
              let here : id ≡ key = (eq_iff id key).0 at in (new r (ap records' here ∙ e)).0 ∙ here
          | inr off ↦ valid.keyed key r (sym (agrees key (differs_of id key off)) ∙ e)
        ];
        behind = λ key r e going. elim (Bool-cases (str_eq id key)) [
          | inl at ↦ rw ((eq_iff w'.task.id key).1 (named ∙ (eq_iff id key).0 at)) refl
          | inr off ↦
              let differs = differs_of id key off in
              rw
                (
                  false_of w'.task.id key (λ e. differs (sym named ∙ e)),
                  ← taken_keeps id key workers rest w taken differs,
                )
                (valid.behind key r (sym (agrees key differs) ∙ e) going)
        ];
        going = (
          (λ r e. (new r (ap records' (sym named) ∙ e)).1, well),
          All-both (IsGoing records) (IsOther id) (IsGoing records') rest
              (λ v going other. IsGoing-apart id records records' v agrees going other)
              (All-taken (IsGoing records) id workers rest w taken valid.going).1 others.0,
        );
      }

  -- One task is gone, which has announced its end.
  pub removed :
      (records : Map SubagentRecord) (permits : ℕ) (workers rest : List (Worker V)) (id : String)
      (w : Worker V)
      → IsValid limits records permits workers
      → take_worker id workers ≡ some (w, rest)
      → w.phase ≡ closing
      → IsValid limits records (suc permits) rest
  removed records permits workers rest id w valid taken at =
      let parts = taken-Parts id workers rest w taken in
      let others = taken_others id workers rest w taken valid.unique in
      let split = All-taken (IsGoing records) id workers rest w taken valid.going in
      record {
        slots_used = omega (arith, parts.1, ap holds at, valid.slots_used);
        unique = others.1;
        keyed = valid.keyed;
        behind = λ key r e going. elim (Bool-cases (str_eq id key)) [
          | inl same ↦
              let final = split.0.0 r (ap records (parts.0 ∙ (eq_iff id key).0 same) ∙ e) in
              cc (going, final, ap is_closing at)
          | inr off ↦
              rw (← taken_keeps id key workers rest w taken (differs_of id key off))
                (valid.behind key r e going)
        ];
        going = split.1;
      }

  -- Records change, and no task does: each stays as final as it was.
  pub rerecorded :
      (records records' : Map SubagentRecord) (permits : ℕ) (workers : List (Worker V))
      → IsValid limits records permits workers
      → ((key : String) (r' : SubagentRecord)
          → records' key ≡ some r'
          → (r : SubagentRecord) × (records key ≡ some r)
            × (r'.id ≡ r.id)
            × (is_terminal r'.status ≡ is_terminal r.status))
      → IsValid limits records' permits workers
  rerecorded records records' permits workers valid old = record {
    slots_used = valid.slots_used;
    unique = valid.unique;
    keyed =
        λ key r' e. let (r, was, same_id, status) = old key r' e in same_id ∙ valid.keyed key r was;
    behind = λ key r' e going.
        let (r, was, same_id, status) = old key r' e in valid.behind key r was (sym status ∙ going);
    going =
        All-both (IsGoing records) (IsGoing records) (IsGoing records') workers
          (λ w going _. (
            λ r' e. let (r, was, same_id, status) = old w.task.id r' e in status ∙ going.0 r was,
            going.1,
          ))
          valid.going valid.going;
  }

  -- A new task, for an identifier that nothing has.
  pub entered_valid :
      (records : Map SubagentRecord) (permits : ℕ) (workers : List (Worker V)) (r : SubagentRecord)
      → IsValid limits records permits workers
      → is_terminal r.status ≡ false
      → has_worker r.id workers ≡ false
      → IsValid limits
          (put r.id (some r) records)
          permits
          (record { task = r; phase = waiting } ∷ workers)
  unfolding holders
  entered_valid records permits workers r valid going fresh =
      let agrees = put-AgreesBut r.id (some r) records in
      record {
        slots_used = omega (arith, valid.slots_used);
        unique = (not_has_worker-All r.id workers fresh, valid.unique);
        keyed = λ key r' e. elim (Bool-cases (str_eq r.id key)) [
          | inl at ↦
              ap (λ r. r.id) (some-injective r' r (sym (rw at at e))) ∙ (eq_iff r.id key).0 at
          | inr off ↦ valid.keyed key r' (rw off at e)
        ];
        behind = λ key r' e going. elim (Bool-cases (str_eq r.id key)) [
          | inl at ↦ rw at refl
          | inr off ↦ rw off (valid.behind key r' (rw off at e) going)
        ];
        going = (
          (
            λ r' e.
                subst (λ r. is_terminal r.status ≡ false)
                  (some-injective r r' (sym (put_same r.id (some r) records) ∙ e)) going,
            tt,
          ),
          All-both (IsGoing records) (IsOther r.id) (IsGoing (put r.id (some r) records)) workers
              (λ v going other.
                IsGoing-apart r.id records (put r.id (some r) records) v agrees going other)
              valid.going (not_has_worker-All r.id workers fresh),
        );
      }
