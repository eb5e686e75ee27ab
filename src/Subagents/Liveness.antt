-- ===== src/Subagents/Liveness.antt =====
-- No task of crates/gocode-agent/src/subagent_manager.rs is ever stuck, and none goes on for ever.
use gocode.Base.{
  ℕ, zero, suc, ◌+◌, ◌<◌, ◌≤◌, ◌≡◌, refl, sym, ap, ◌∙◌, ◌⊎◌, inl, inr, true, Option, none, some,
  List, [], ◌∷◌, String, Bool-cases, arith,
}
use gocode.Subagents.{SubagentRecord, SubagentResult, is_terminal, timed_out}
use gocode.Subagents.Spawn.{SubagentLimits}
use gocode.Subagents.Workers.{
  Worker, Phase, waiting, driving, asking, ended, closing, holds, take_worker, has_worker,
}
use gocode.Subagents.Workers.Taken.{holder, take_worker-first}
use gocode.Subagents.Manager.{Manager, put, slots}
use gocode.Subagents.Tasks.{at_worker, begin, start, cut, time_out, end_task, finish, close, leave}
use gocode.Subagents.Steps.{TaskStep, starts, times_out, finishes, leaves, works, next, Reachable}
use gocode.Subagents.Invariant.{IsValidManager}
use gocode.Subagents.Validity.{Reachable-IsValid}
use gocode.Subagents.Cost.{cost, KeepsKeys}
use gocode.Subagents.Cost.Tasks.{TaskStep-Spends}

positive : (n : ℕ) → 0 < elim n [ zero ↦ 1 | suc k ↦ suc k ]
positive zero = omega arith
positive (suc k) = omega arith

slots_pos : (limits : SubagentLimits) → 0 < slots limits
slots_pos limits = positive limits.max_concurrent

module _ {V : Type 0} (parse : String → Option SubagentResult) where
  -- Some steps of the tasks, one after the other, and how many they are.
  pub data Run (m : Manager V) : ℕ → Manager V → Type 0 where
    begun : Run m 0 m
    more : {n : ℕ} {t u : Manager V} → Run m n t → TaskStep parse t u → Run m (suc n) u

  abbrev pub CanStep : Manager V → Type 0
  CanStep m = (m' : Manager V) × TaskStep parse m m'

  Run-Reachable :
      (limits : SubagentLimits) {m m' : Manager V} {n : ℕ}
      → Reachable parse limits m
      → Run m n m'
      → Reachable parse limits m'
  Run-Reachable limits reach begun = reach
  Run-Reachable limits reach (more run step) = next (Run-Reachable limits reach run) (works step)

  Run-cost : {m m' : Manager V} {n : ℕ} → Run m n m' → n + cost m' ≤ cost m
  Run-cost begun = omega arith
  Run-cost (more {t = t} {u = u} run step) =
      omega (arith, Run-cost run, (TaskStep-Spends parse t u step).0)

  Run-KeepsKeys : {m m' : Manager V} {n : ℕ} → Run m n m' → KeepsKeys m m'
  Run-KeepsKeys begun key h = h
  Run-KeepsKeys (more {t = t} {u = u} run step) key h =
      (TaskStep-Spends parse t u step).1 key (Run-KeepsKeys run key h)

  -- A task with a slot runs out of time at the latest.
  held-CanStep :
      (m : Manager V) (r : SubagentRecord) (phase : Phase V) (rest : List (Worker V))
      → take_worker r.id m.workers ≡ some (record { task = r; phase = phase }, rest)
      → holds phase ≡ 1
      → CanStep m
  unfolding time_out finish leave
  held-CanStep m r waiting rest taken held = absurd (omega (arith, held))
  held-CanStep m r (driving a b c) rest taken held = (
    _,
    times_out r.id
        (ap (at_worker (cut timed_out (record m { cancelled = put r.id true m.cancelled }))) taken),
  )
  held-CanStep m r (asking a b) rest taken held = (
    _,
    times_out r.id
        (ap (at_worker (cut timed_out (record m { cancelled = put r.id true m.cancelled }))) taken),
  )
  held-CanStep m r (ended status result) rest taken held =
      (_, finishes r.id 0 true (ap (at_worker (end_task 0 true m)) taken))
  held-CanStep m r closing rest taken held = (_, leaves r.id (ap (at_worker (close m)) taken))

  -- With a free slot, any task can go on.
  free-CanStep :
      (m : Manager V) (permits : ℕ) (r : SubagentRecord) (phase : Phase V) (rest : List (Worker V))
      → m.permits ≡ suc permits
      → take_worker r.id m.workers ≡ some (record { task = r; phase = phase }, rest)
      → CanStep m
  unfolding start
  free-CanStep m permits r waiting rest free taken = (
    _,
    starts r.id 0 true none (
        ap (λ n. at_worker (begin 0 true none m n) (take_worker r.id m.workers)) free
        ∙ ap (at_worker (begin 0 true none m (suc permits))) taken),
  )
  free-CanStep m permits r (driving a b c) rest free taken =
      held-CanStep m r (driving a b c) rest taken refl
  free-CanStep m permits r (asking a b) rest free taken =
      held-CanStep m r (asking a b) rest taken refl
  free-CanStep m permits r (ended a b) rest free taken =
      held-CanStep m r (ended a b) rest taken refl
  free-CanStep m permits r closing rest free taken = held-CanStep m r closing rest taken refl

  -- Some task can always go on: without a free slot, one that holds a slot.
  some-CanStep :
      (limits : SubagentLimits) (m : Manager V) (permits : ℕ) (w : Worker V)
      (workers : List (Worker V))
      → IsValidManager limits m
      → m.permits ≡ permits
      → m.workers ≡ w ∷ workers
      → CanStep m
  some-CanStep limits m zero w workers valid free all =
      let (v, rest, taken, held) =
        holder m.workers valid.unique (omega (arith, valid.slots_used, free, slots_pos limits)) in
      held-CanStep m v.task v.phase rest taken held
  some-CanStep limits m (suc permits) w workers valid free all =
      free-CanStep m permits w.task w.phase workers free
        (ap (take_worker w.task.id) all ∙ take_worker-first w workers w.task.id refl)

  -- No task is left, and every record is final.
  abbrev pub AllOver : Manager V → Type 0
  AllOver m =
      (m.workers ≡ [])
      × ((id : String) (r : SubagentRecord) → m.records id ≡ some r → is_terminal r.status ≡ true)

  over_or_CanStep :
      (limits : SubagentLimits) (m : Manager V) (workers : List (Worker V))
      → IsValidManager limits m
      → m.workers ≡ workers
      → AllOver m ⊎ CanStep m
  over_or_CanStep limits m [] valid all = inl (
    all,
    λ id r was. elim (Bool-cases (is_terminal r.status)) [
      | inl final ↦ final
      | inr going ↦ cc (sym (valid.behind id r was going) ∙ ap (has_worker id) all)
    ],
  )
  over_or_CanStep limits m (w ∷ workers) valid all =
      inr (some-CanStep limits m m.permits w workers valid refl all)

  -- From a reachable state, the tasks can take only so many steps by themselves, in any order and whatever
  -- their agents do: at most five for each task and two for each message that is queued for it. After
  -- any such steps no record is lost, and either no task is left and every record is final, or some task
  -- can take a further step. A run of an agent counts as one step, and the channel of the events is taken
  -- to have room.
  pub subagents_end :
      (limits : SubagentLimits) (m m' : Manager V) (n : ℕ)
      → Reachable parse limits m
      → Run m n m'
      → (n ≤ cost m) × KeepsKeys m m' × (AllOver m' ⊎ CanStep m')
  subagents_end limits m m' n reach run = (
    omega (arith, Run-cost run),
    Run-KeepsKeys run,
    over_or_CanStep limits m' m'.workers
        (Reachable-IsValid limits parse (Run-Reachable limits reach run)) refl,
  )
