-- ===== src/Subagents/Change/Entering.antt =====
-- What crates/gocode-agent/src/subagent_manager.rs has yet to enter are records that `spawn` made.
use mathlib.Core.Option.{some-injective}
use gocode.Base.{
  ℕ, zero, suc, ◌≡◌, refl, sym, ap, subst, Option, none, some, List, [], ◌∷◌, ◌++◌, All, String,
  if_holds, Result, ok, err,
}
use gocode.Process.Redact.{redact_secrets}
use gocode.Paths.{FilePath}
use gocode.Subagents.{SubagentRecord, SubagentResult, is_terminal}
use gocode.Subagents.Spawn.{
  SubagentError, SpawnRequest, SpawnWorld, refused, fresh_record, with_worktree, SubagentLimits,
}
use gocode.Subagents.Manager.{
  Manager, new_manager, spawn, registered, spawned_with, unless_refused, enter, enter_one,
  send_message, record_message, deliver, take_nth, queue_sent, stop, stop_record, cancel,
  cancel_one, delete,
}
use gocode.Subagents.Steps.{
  Step, spawns, enters, sends, delivers, stops, signals, deletes, works, here, next, Reachable,
}
use gocode.Subagents.Change.{IsMade}
use gocode.Subagents.Cost.Tasks.{TaskStep-Spends}

-- What holds of all holds of the one that is taken, and of the others.
abbrev TakenAll : (SubagentRecord → Type 0) → Option (SubagentRecord × List SubagentRecord) → Type 0
TakenAll P none = Unit
TakenAll P (some (r, rest)) = P r × All P rest

kept-TakenAll :
    (P : SubagentRecord → Type 0) (r : SubagentRecord)
    (o : Option (SubagentRecord × List SubagentRecord))
    → P r
    → TakenAll P o
    → TakenAll P (elim o [ none ↦ none | some (y, others) ↦ some (y, r ∷ others) ])
kept-TakenAll P r none p h = tt
kept-TakenAll P r (some (y, others)) p h = (h.0, (p, h.1))

take_nth-TakenAll :
    (P : SubagentRecord → Type 0) (n : ℕ) (records : List SubagentRecord)
    → All P records
    → TakenAll P (take_nth n records)
take_nth-TakenAll P n [] h = tt
take_nth-TakenAll P zero (r ∷ rest) h = h
take_nth-TakenAll P (suc n) (r ∷ rest) h =
    kept-TakenAll P r (take_nth n rest) h.0 (take_nth-TakenAll P n rest h.1)

pub taken-All :
    (P : SubagentRecord → Type 0) (n : ℕ) (records rest : List SubagentRecord) (r : SubagentRecord)
    → take_nth n records ≡ some (r, rest)
    → All P records
    → P r × All P rest
taken-All P n records rest r e h = subst (TakenAll P) e (take_nth-TakenAll P n records h)

All-snoc :
    (P : SubagentRecord → Type 0) (records : List SubagentRecord) (r : SubagentRecord)
    → All P records
    → P r
    → All P (records ++ r ∷ [])
All-snoc P [] r h p = (p, tt)
All-snoc P (first ∷ rest) r h p = (h.0, All-snoc P rest r h.1 p)

module _ {V : Type 0} where
  abbrev pub AllMade : Manager V → Type 0
  AllMade m = All IsMade m.entering

  spawned-AllMade :
      (request : SpawnRequest) (world : SpawnWorld) (m : Manager V)
      (o : Result SubagentError SubagentRecord × List FilePath)
      → refused request ≡ none
      → with_worktree (fresh_record request world) world m.claimed_worktrees ≡ o
      → AllMade m
      → AllMade (spawned_with world m o).1
  spawned-AllMade request world m (err e, claimed) allowed made h = h
  spawned-AllMade request world m (ok r, claimed) allowed made h = saved-AllMade world.saved
    where
      saved-AllMade :
          (saved : Result String (Unit {0}))
          → AllMade (registered r saved (record m { claimed_worktrees = claimed })).1
      saved-AllMade (err e) = h
      saved-AllMade (ok _) = All-snoc IsMade m.entering r h (record {
        request = request;
        world = world;
        claimed = m.claimed_worktrees;
        spawned = (allowed, ap (λ o. o.0) made);
      })

  unless_refused-AllMade :
      (request : SpawnRequest) (world : SpawnWorld) (m : Manager V) (o : Option SubagentError)
      → refused request ≡ o
      → AllMade m
      → AllMade (unless_refused request world m o).1
  unless_refused-AllMade request world m (some e) allowed h = h
  unless_refused-AllMade request world m none allowed h =
      spawned-AllMade request world m _ allowed refl h

  enter_one-AllMade :
      (m m' : Manager V) (o : Option (SubagentRecord × List SubagentRecord))
      → enter_one m o ≡ some m'
      → TakenAll IsMade o
      → AllMade m'
  enter_one-AllMade m m' none e h = cc e
  enter_one-AllMade m m' (some (r, rest)) e h = subst AllMade (some-injective _ m' e) h.1

  record_message-AllMade :
      (id text : String) (now : ℕ) (outcome : Result String (Unit {0})) (m : Manager V)
      (o : Option SubagentRecord)
      → AllMade m
      → AllMade (record_message id text now outcome m o).1
  record_message-AllMade id text now outcome m none h = h
  record_message-AllMade id text now (ok _) m (some r) h =
      if_holds (λ (o : Result SubagentError (Unit {0}) × Manager V). AllMade o.1)
        (is_terminal r.status) (λ _. h) (λ _. h)
  record_message-AllMade id text now (err x) m (some r) h =
      if_holds (λ (o : Result SubagentError (Unit {0}) × Manager V). AllMade o.1)
        (is_terminal r.status) (λ _. h) (λ _. h)

  queue_sent-AllMade :
      (m m' : Manager V) (o : Option ((String × String) × List (String × String)))
      → queue_sent m o ≡ some m'
      → AllMade m
      → AllMade m'
  queue_sent-AllMade m m' none e h = cc e
  queue_sent-AllMade m m' (some ((id, text), rest)) e h = subst AllMade (some-injective _ m' e) h

  stop_record-AllMade :
      (id : String) (m : Manager V) (o : Option SubagentRecord)
      → AllMade m
      → AllMade (stop_record id m o).1
  stop_record-AllMade id m none h = h
  stop_record-AllMade id m (some r) h =
      if_holds (λ (o : Result SubagentError (Unit {0}) × Manager V). AllMade o.1)
        (is_terminal r.status) (λ _. h) (λ _. h)

  cancel_one-AllMade :
      (m m' : Manager V) (o : Option (String × List String))
      → cancel_one m o ≡ some m'
      → AllMade m
      → AllMade m'
  cancel_one-AllMade m m' none e h = cc e
  cancel_one-AllMade m m' (some (id, rest)) e h =
      subst AllMade (some-injective _ m' e) (if_holds AllMade (m.tokens id) (λ _. h) (λ _. h))

  delete-AllMade :
      (id : String) (removed : Result String (Unit {0})) (m : Manager V)
      → AllMade m
      → AllMade (delete id removed m).1
  unfolding delete
  delete-AllMade id (ok _) m h = h
  delete-AllMade id (err e) m h = h

  Step-AllMade :
      (parse : String → Option SubagentResult) (m m' : Manager V)
      → Step parse m m'
      → AllMade m
      → AllMade m'
  unfolding spawn enter send_message deliver stop cancel
  Step-AllMade parse m m' (spawns request world e) h =
      subst AllMade e (unless_refused-AllMade request world m (refused request) refl h)
  Step-AllMade parse m m' (enters n r rest taken fresh e) h =
      enter_one-AllMade m m' (take_nth n m.entering) e (take_nth-TakenAll IsMade n m.entering h)
  Step-AllMade parse m m' (sends id text now outcome e) h =
      subst AllMade e
        (record_message-AllMade id (redact_secrets text) now outcome m (m.records id) h)
  Step-AllMade parse m m' (delivers n e) h = queue_sent-AllMade m m' (take_nth n m.sending) e h
  Step-AllMade parse m m' (stops id e) h =
      subst AllMade e (stop_record-AllMade id m (m.records id) h)
  Step-AllMade parse m m' (signals n e) h = cancel_one-AllMade m m' (take_nth n m.stopping) e h
  Step-AllMade parse m m' (deletes id removed e) h = subst AllMade e (delete-AllMade id removed m h)
  Step-AllMade parse m m' (works step) h =
      subst (All IsMade) (sym (TaskStep-Spends parse m m' step).2) h

  pub Reachable-AllMade :
      (parse : String → Option SubagentResult) (limits : SubagentLimits) {m : Manager V}
      → Reachable parse limits m
      → AllMade m
  unfolding new_manager
  Reachable-AllMade parse limits here = tt
  Reachable-AllMade parse limits (next {t = t} {u = u} reach step) =
      Step-AllMade parse t u step (Reachable-AllMade parse limits reach)
