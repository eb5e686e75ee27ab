-- ===== src/Subagents/Change/Requests.antt =====
-- Each request of the supervisor to crates/gocode-agent/src/subagent_manager.rs is one of the
-- changes.
use mathlib.Core.Option.{some-injective}
use gocode.Base.{
  ℕ, ◌≡◌, refl, sym, ap, subst, ◌∙◌, Option, none, some, List, String, if_holds, Result, ok, err,
}
use gocode.Process.Redact.{redact_secrets}
use gocode.Paths.{FilePath}
use gocode.Subagents.{SubagentRecord, SubagentResult, is_terminal}
use gocode.Subagents.Spawn.{SubagentError, SpawnRequest, SpawnWorld, refused}
use gocode.Subagents.Manager.{
  Manager, spawn, registered, spawned_with, unless_refused, enter, enter_one, send_message,
  record_message, deliver, take_nth, queue_sent, stop, stop_record, cancel, cancel_one, delete,
}
use gocode.Subagents.Steps.{
  IsFresh, Step, spawns, enters, sends, delivers, stops, signals, deletes, works,
}
use gocode.Subagents.Change.{IsMade, Change, nothing, noted, dropped, entered}
use gocode.Subagents.Change.Entering.{AllMade, taken-All}
use gocode.Subagents.Change.Tasks.{TaskStep-Change}

module _ {V : Type 0} where
  registered-Change :
      (m m₀ : Manager V) (r : SubagentRecord) (saved : Result String (Unit {0}))
      → m.records ≡ m₀.records
      → m.permits ≡ m₀.permits
      → m.workers ≡ m₀.workers
      → Change m₀ (registered r saved m).1
  registered-Change m m₀ r (err e) rs p w = nothing rs p w
  registered-Change m m₀ r (ok _) rs p w = nothing rs p w

  spawned-Change :
      (world : SpawnWorld) (m : Manager V) (o : Result SubagentError SubagentRecord × List FilePath)
      → Change m (spawned_with world m o).1
  spawned-Change world m (err e, claimed) = nothing refl refl refl
  spawned-Change world m (ok r, claimed) = registered-Change _ m r world.saved refl refl refl

  unless_refused-Change :
      (request : SpawnRequest) (world : SpawnWorld) (m : Manager V) (o : Option SubagentError)
      → Change m (unless_refused request world m o).1
  unless_refused-Change request world m (some e) = nothing refl refl refl
  unless_refused-Change request world m none = spawned-Change world m _

  enter-Change :
      (n : ℕ) (m m' : Manager V) (r : SubagentRecord) (rest : List SubagentRecord)
      → IsMade r
      → take_nth n m.entering ≡ some (r, rest)
      → IsFresh r.id m
      → enter n m ≡ some m'
      → Change m m'
  unfolding enter
  enter-Change n m m' r rest made taken fresh e =
      subst (Change m) (some-injective _ m' (sym (ap (enter_one m) taken) ∙ e))
        (entered r made fresh refl refl refl)

  record_message-Change :
      (id text : String) (now : ℕ) (outcome : Result String (Unit {0})) (m : Manager V)
      (o : Option SubagentRecord)
      → m.records id ≡ o
      → Change m (record_message id text now outcome m o).1
  record_message-Change id text now outcome m none e = nothing refl refl refl
  record_message-Change id text now (ok _) m (some r) e =
      if_holds (λ (o : Result SubagentError (Unit {0}) × Manager V). Change m o.1)
        (is_terminal r.status) (λ _. nothing refl refl refl)
        (λ going. noted id text now r e going refl refl refl)
  record_message-Change id text now (err x) m (some r) e =
      if_holds (λ (o : Result SubagentError (Unit {0}) × Manager V). Change m o.1)
        (is_terminal r.status) (λ _. nothing refl refl refl)
        (λ going. noted id text now r e going refl refl refl)

  queue_sent-Change :
      (m m' : Manager V) (o : Option ((String × String) × List (String × String)))
      → queue_sent m o ≡ some m'
      → Change m m'
  queue_sent-Change m m' none e = cc e
  queue_sent-Change m m' (some ((id, text), rest)) e =
      subst (Change m) (some-injective _ m' e) (nothing refl refl refl)

  stop_record-Change :
      (id : String) (m : Manager V) (o : Option SubagentRecord) → Change m (stop_record id m o).1
  stop_record-Change id m none = nothing refl refl refl
  stop_record-Change id m (some r) =
      if_holds (λ (o : Result SubagentError (Unit {0}) × Manager V). Change m o.1)
        (is_terminal r.status) (λ _. nothing refl refl refl) (λ _. nothing refl refl refl)

  cancel_one-Change :
      (m m' : Manager V) (o : Option (String × List String))
      → cancel_one m o ≡ some m'
      → Change m m'
  cancel_one-Change m m' none e = cc e
  cancel_one-Change m m' (some (id, rest)) e = subst (Change m) (some-injective _ m' e) (
      if_holds (Change m) (m.tokens id) (λ _. nothing refl refl refl) (λ _. nothing refl refl refl))

  delete-Change :
      (id : String) (removed : Result String (Unit {0})) (m : Manager V)
      → Change m (delete id removed m).1
  unfolding delete
  delete-Change id (ok _) m = dropped id refl refl refl
  delete-Change id (err e) m = dropped id refl refl refl

  pub Step-Change :
      (parse : String → Option SubagentResult) (m m' : Manager V)
      → AllMade m
      → Step parse m m'
      → Change m m'
  unfolding spawn send_message deliver stop cancel
  Step-Change parse m m' made (spawns request world e) =
      subst (Change m) e (unless_refused-Change request world m (refused request))
  Step-Change parse m m' made (enters n r rest taken fresh e) =
      enter-Change n m m' r rest (taken-All IsMade n m.entering rest r taken made).0 taken fresh e
  Step-Change parse m m' made (sends id text now outcome e) =
      subst (Change m) e
        (record_message-Change id (redact_secrets text) now outcome m (m.records id) refl)
  Step-Change parse m m' made (delivers n e) = queue_sent-Change m m' (take_nth n m.sending) e
  Step-Change parse m m' made (stops id e) =
      subst (Change m) e (stop_record-Change id m (m.records id))
  Step-Change parse m m' made (signals n e) = cancel_one-Change m m' (take_nth n m.stopping) e
  Step-Change parse m m' made (deletes id removed e) =
      subst (Change m) e (delete-Change id removed m)
  Step-Change parse m m' made (works step) = TaskStep-Change parse m m' step
