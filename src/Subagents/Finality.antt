-- ===== src/Subagents/Finality.antt =====
-- A final record of crates/gocode-agent/src/subagent_manager.rs stays as it is.
use gocode.Base.{
  ◌≡◌, ◌≢◌, refl, sym, ap, ◌∙◌, ◌⊎◌, inl, inr, true, false, Option, none, some, List, String,
  str_eq, false_of, Bool-cases,
}
use mathlib.Core.Option.{some-injective}
use gocode.Subagents.{SubagentRecord, SubagentResult, is_terminal}
use gocode.Subagents.Spawn.{SubagentLimits}
use gocode.Subagents.Workers.{Worker, is_closing, take_worker}
use gocode.Subagents.Workers.Taken.{All-taken}
use gocode.Subagents.Manager.{Map, Manager, put}
use gocode.Subagents.Steps.{Step, Reachable}
use gocode.Subagents.Change.{
  unchanged, followed, Change, nothing, noted, dropped, entered, moves, ends, left,
}
use gocode.Subagents.Change.Entering.{Reachable-AllMade}
use gocode.Subagents.Change.Requests.{Step-Change}
use gocode.Subagents.Invariant.{IsValidManager, IsGoing}
use gocode.Subagents.Validity.{Reachable-IsValid}

put_other :
    (id key : String) (o : Option SubagentRecord) (records : Map SubagentRecord)
    → id ≢ key
    → put id o records key ≡ records key
put_other id key o records differs = rw (false_of id key differs) refl

module _ {V : Type 0} (limits : SubagentLimits) where
  -- A task that has not yet ended is not behind a final record.
  not_the_task :
      (m : Manager V) (id key : String) (r : SubagentRecord) (w : Worker V) (rest : List (Worker V))
      → IsValidManager limits m
      → take_worker id m.workers ≡ some (w, rest)
      → is_closing w.phase ≡ false
      → m.records key ≡ some r
      → is_terminal r.status ≡ true
      → w.task.id ≢ key
  not_the_task m id key r w rest valid taken goes_on was final e = cc (
    final,
    goes_on,
    (All-taken (IsGoing m.records) id m.workers rest w taken valid.going).0.0 r
        (ap m.records e ∙ was),
  )

  Change-final :
      (m m' : Manager V) (key : String) (r : SubagentRecord)
      → Change m m'
      → IsValidManager limits m
      → m.records key ≡ some r
      → is_terminal r.status ≡ true
      → (m'.records key ≡ some r) ⊎ (m'.records key ≡ none)
  Change-final m m' key r (nothing rs p w) valid was final =
      inl (ap (λ (records : Map SubagentRecord). records key) rs ∙ was)
  Change-final m m' key r (noted id text now old had going rs p w) valid was final = inl (
      ap (λ (records : Map SubagentRecord). records key) rs
      ∙ put_other id key _ m.records
          (λ e. cc (final, going, some-injective old r (sym had ∙ ap m.records e ∙ was)))
      ∙ was)
  Change-final m m' key r (dropped id rs p w) valid was final = elim (Bool-cases (str_eq id key)) [
    | inl at ↦ inr (ap (λ (records : Map SubagentRecord). records key) rs ∙ rw at refl)
    | inr off ↦ inl (ap (λ (records : Map SubagentRecord). records key) rs ∙ rw off was)
  ]
  Change-final m m' key r (entered new made fresh rs p w) valid was final = inl (
      ap (λ (records : Map SubagentRecord). records key) rs
      ∙ put_other new.id key _ m.records (λ e. cc (sym fresh.0 ∙ ap m.records e ∙ was))
      ∙ was)
  Change-final m m' key r
        (moves id v v' rest taken restates goes_on goes_on' well (unchanged rs) slots w) valid was
        final =
      inl (ap (λ (records : Map SubagentRecord). records key) rs ∙ was)
  Change-final m m' key r
        (moves id v v' rest taken restates goes_on goes_on' well
          (followed now status going rs)
          slots
          w)
        valid was final =
      inl (
        ap (λ (records : Map SubagentRecord). records key) rs
        ∙ put_other v.task.id key _ m.records
            (not_the_task m id key r v rest valid taken goes_on was final)
        ∙ was)
  Change-final m m' key r (ends id now status result v rest taken at rs p w) valid was final = inl (
      ap (λ (records : Map SubagentRecord). records key) rs
      ∙ put_other v.task.id key _ m.records
          (not_the_task m id key r v rest valid taken (ap is_closing at) was final)
      ∙ was)
  Change-final m m' key r (left id v rest taken at rs p w) valid was final =
      inl (ap (λ (records : Map SubagentRecord). records key) rs ∙ was)

  -- In every reachable state, no step changes a record whose status is final: afterwards it is there as it
  -- was, or it is deleted.
  pub final_stays :
      (parse : String → Option SubagentResult) (m m' : Manager V) (key : String)
      (r : SubagentRecord)
      → Reachable parse limits m
      → Step parse m m'
      → m.records key ≡ some r
      → is_terminal r.status ≡ true
      → (m'.records key ≡ some r) ⊎ (m'.records key ≡ none)
  final_stays parse m m' key r reach step was final =
      Change-final m m' key r (Step-Change parse m m' (Reachable-AllMade parse limits reach) step)
        (Reachable-IsValid limits parse reach) was final
