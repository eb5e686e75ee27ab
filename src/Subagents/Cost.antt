-- ===== src/Subagents/Cost.antt =====
-- Each step of a task of crates/gocode-agent/src/subagent_manager.rs uses up some of what is left to do:
-- the places where the tasks still wait, and the messages that are queued for them.
pub mod Tasks
use gocode.Base.{
  ℕ, suc, ◌+◌, ◌<◌, ◌≤◌, ◌≡◌, refl, subst, inl, inr, true, Option, none, some, is_some, List, [],
  ◌∷◌, length, String, str_eq, eq_iff, Bool-cases, arith,
}
use gocode.Subagents.{SubagentRecord}
use gocode.Subagents.Workers.{
  Worker, Phase, waiting, driving, asking, ended, closing, take_worker, Splits, aside,
}
use gocode.Subagents.Manager.{Map, Manager, put, queue_of}
use gocode.Subagents.Tasks.{at_worker}

-- How many waits are left to a task, the messages aside.
abbrev pub weight : {V : Type 0} → Phase V → ℕ
weight waiting = 5
weight (driving prompt history last_text) = 4
weight (asking history last_text) = 3
weight (ended status result) = 2
weight closing = 1

-- The messages that are queued for an identifier.
abbrev pub queued_for : Map (List String) → String → ℕ
queued_for pending id = length (queue_of (pending id))

abbrev pub worker_cost : {V : Type 0} → Map (List String) → Worker V → ℕ
worker_cost pending w =
    weight w.phase + (queued_for pending w.task.id + queued_for pending w.task.id)

abbrev pub Shrinks : Map (List String) → Map (List String) → Type 0
Shrinks pending pending' = (key : String) → queued_for pending' key ≤ queued_for pending key

pub take_all-Shrinks :
    (id : String) (pending : Map (List String)) → Shrinks pending (put id (some []) pending)
take_all-Shrinks id pending key = elim (Bool-cases (str_eq id key)) [
  | inl at ↦ rw at (omega arith)
  | inr off ↦ rw off (omega arith)
]

pub queued_after :
    (id : String) (pending : Map (List String)) → queued_for (put id (some []) pending) id ≡ 0
queued_after id pending = rw ((eq_iff id id).1 refl) refl

pub lighter : (a b q : ℕ) → a < b → a + (q + q) < b + (q + q)
lighter a b q h = omega (arith, h)

-- A message counts for two: its task may ask once more for it.
pub consumed : (a b q q' n : ℕ) → a < suc (suc b) → q' ≡ 0 → q ≡ suc n → a + (q' + q') < b + (q + q)
consumed a b q q' n h e e' = omega (arith, h, e, e')

pub put-is_some :
    (id key : String) (r : SubagentRecord) (records : Map SubagentRecord)
    → is_some (records key) ≡ true
    → is_some (put id (some r) records key) ≡ true
put-is_some id key r records h = elim (Bool-cases (str_eq id key)) [
  | inl at ↦ rw at refl
  | inr off ↦ rw off h
]

module _ {V : Type 0} where
  unfoldable pub cost_of : Map (List String) → List (Worker V) → ℕ
  cost_of pending [] = 0
  cost_of pending (w ∷ workers) = worker_cost pending w + cost_of pending workers

  -- The most steps that the tasks can still take by themselves.
  abbrev pub cost : Manager V → ℕ
  cost m = cost_of m.pending_messages m.workers

  cost_of-Shrinks :
      (pending pending' : Map (List String)) (workers : List (Worker V))
      → Shrinks pending pending'
      → cost_of pending' workers ≤ cost_of pending workers
  unfolding cost_of
  cost_of-Shrinks pending pending' [] less = omega arith
  cost_of-Shrinks pending pending' (w ∷ workers) less =
      omega (arith, less w.task.id, cost_of-Shrinks pending pending' workers less)

  abbrev pub CostSplits : Map (List String) → List (Worker V) → Worker V → List (Worker V) → Type 0
  CostSplits pending workers w rest =
      cost_of pending workers ≡ worker_cost pending w + cost_of pending rest

  aside-CostSplits :
      (pending : Map (List String)) (v : Worker V) (workers : List (Worker V))
      (o : Option (Worker V × List (Worker V)))
      → Splits (CostSplits pending workers) o
      → Splits (CostSplits pending (v ∷ workers)) (aside v o)
  unfolding cost_of
  aside-CostSplits pending v workers none h = tt
  aside-CostSplits pending v workers (some (w, rest)) h = omega (arith, h)

  take_worker-CostSplits :
      (pending : Map (List String)) (id : String) (workers : List (Worker V))
      → Splits (CostSplits pending workers) (take_worker id workers)
  unfolding take_worker cost_of
  take_worker-CostSplits pending id [] = tt
  take_worker-CostSplits pending id (w ∷ workers) = elim (Bool-cases (str_eq w.task.id id)) [
    | inl e ↦ rw e refl
    | inr e ↦ rw e (
        aside-CostSplits pending w workers (take_worker id workers)
          (take_worker-CostSplits pending id workers))
  ]

  -- A record at each key where there was one.
  abbrev pub KeepsKeys : Manager V → Manager V → Type 0
  KeepsKeys m m' = (key : String) → is_some (m.records key) ≡ true → is_some (m'.records key) ≡ true

  -- Less is left to do, no record is lost, and the spawns stand where they stood.
  abbrev pub Spends : Manager V → Manager V → Type 0
  Spends m m' = (cost m' < cost m) × KeepsKeys m m' × (m'.entering ≡ m.entering)

  abbrev pub SpendsIf : Manager V → Option (Manager V) → Type 0
  SpendsIf m none = Unit
  SpendsIf m (some m') = Spends m m'

  pub cost_of-taken :
      (m : Manager V) (id : String) (w : Worker V) (rest : List (Worker V))
      → take_worker id m.workers ≡ some (w, rest)
      → CostSplits m.pending_messages m.workers w rest
  cost_of-taken m id w rest taken =
      subst (Splits (CostSplits m.pending_messages m.workers)) taken
        (take_worker-CostSplits m.pending_messages id m.workers)

  -- One task goes on, with less left to do.
  pub goes_on :
      (m : Manager V) (pending : Map (List String)) (id : String) (w w' : Worker V)
      (rest : List (Worker V))
      → take_worker id m.workers ≡ some (w, rest)
      → Shrinks m.pending_messages pending
      → worker_cost pending w' < worker_cost m.pending_messages w
      → cost_of pending (w' ∷ rest) < cost m
  unfolding cost_of
  goes_on m pending id w w' rest taken less lighter = omega (
    arith,
    cost_of-taken m id w rest taken,
    cost_of-Shrinks m.pending_messages pending rest less,
    lighter,
  )

  pub stays : (m : Manager V) → Shrinks m.pending_messages m.pending_messages
  stays m key = omega arith

  pub at_worker-Spends :
      (m : Manager V) (id : String)
      (step : SubagentRecord → Phase V → List (Worker V) → Option (Manager V))
      (o : Option (Worker V × List (Worker V)))
      → take_worker id m.workers ≡ o
      → ((w : Worker V) (rest : List (Worker V))
          → take_worker id m.workers ≡ some (w, rest)
          → SpendsIf m (step w.task w.phase rest))
      → SpendsIf m (at_worker step o)
  at_worker-Spends m id step none e h = tt
  at_worker-Spends m id step (some (w, rest)) e h = h w rest e
