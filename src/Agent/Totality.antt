-- ===== src/Agent/Totality.antt =====
-- The loop of `Agent::drive` in crates/gocode-agent/src/agent.rs ends, and what it leaves is within
-- the limits.
use gocode.Base.{
  ℕ, zero, suc, ◌+◌, ◌≤◌, ◌<◌, ◌≡◌, refl, sym, some, arith, length, ltb, leb, ok, err, is_empty,
  subst, if_holds,
}
use gocode.Json.{Json}
use gocode.Progress.{requires_validation}
use gocode.Agent.{AgentLimits}
use gocode.Agent.World.{World, Printers}
use gocode.Agent.Turn.{TurnResult, Turned}
use gocode.Agent.Calls.{RunState, Exit, Flow, leave, go_on}
use gocode.Agent.Counters.{IsWithin, FlowIsWithin, IsWithin-events}
use gocode.Agent.Bounds.{call_steps-IsWithin}
use gocode.Agent.Drive.{
  AgentRequest, after_turn, turned, turn_step, drive_loop, left_by, Left, begun, formats,
}

module _ {W V : Type 0} (json : Json V) (printers : Printers) (world : World W V)
    (limits : AgentLimits) (request : AgentRequest V) where
  -- A state that leaves the loop.
  abbrev pub IsLeft : RunState W V → Type 0
  IsLeft s = IsWithin limits s.stats.turns 0 s × (s.stats.turns ≤ limits.max_turns)

  -- What a round of the loop gives, from a state in its turn `turn`.
  abbrev pub RoundIsWithin : ℕ → Flow W V → Type 0
  RoundIsWithin turn (leave _ s) = IsLeft s
  RoundIsWithin turn (go_on s) = IsWithin limits (suc turn) 0 s × (suc turn ≤ limits.max_turns)

  IsLeft-IsWithin :
      (turn : ℕ) (s : RunState W V) → IsWithin limits turn 0 s → turn ≤ limits.max_turns → IsLeft s
  IsLeft-IsWithin turn s within h =
      (subst (λ n. IsWithin limits n 0 s) (sym within.turns) within, omega (arith, within.turns, h))

  round-IsWithin :
      (turn : ℕ) (flow : Flow W V)
      → FlowIsWithin limits (suc turn) 0 flow
      → suc turn ≤ limits.max_turns
      → RoundIsWithin turn flow
  round-IsWithin turn (leave e s) within h = IsLeft-IsWithin (suc turn) s within h
  round-IsWithin turn (go_on s) within h = (within, h)

  after_turn-IsWithin :
      (turn : ℕ) (response : TurnResult V) (s : RunState W V)
      → IsWithin limits turn 0 s
      → FlowIsWithin limits turn 0 (after_turn json printers world limits request response s)
  unfolding after_turn
  after_turn-IsWithin turn response s within =
      let P = FlowIsWithin limits turn 0 in
      if_holds P (is_empty response.tool_calls)
        (λ _. if_holds P (requires_validation s.progress) (λ _. within) (λ _. within))
        (λ _.
          if_holds P
            (ltb limits.max_total_tool_calls (s.stats.tool_calls + length response.tool_calls))
            (λ _. within)
            (λ fits.
              if_holds P (ltb limits.max_tool_calls_per_turn (length response.tool_calls))
                (λ _. within)
                (λ _.
                  call_steps-IsWithin json printers world limits turn response.tool_calls _
                    (record {
                      turns = within.turns;
                      tool_calls = ground (arith, fits);
                      failed = within.failed;
                      consecutive = within.consecutive;
                      log = within.log;
                    }))))

  turned-IsWithin :
      (turn : ℕ) (s : RunState W V)
      (outcome : Turned world (formats json printers world limits request) limits)
      → IsWithin limits turn 0 s
      → FlowIsWithin limits turn 0 (turned json printers world limits request s outcome)
  turned-IsWithin turn s (ok response, events, w) within =
      after_turn-IsWithin turn response _ record {
        turns = within.turns;
        tool_calls = within.tool_calls;
        failed = within.failed;
        consecutive = within.consecutive;
        log = within.log;
      }
  turned-IsWithin turn s (err e, events, w) within =
      IsWithin-events json printers world limits turn 0 s events w within

  turn_step-IsWithin :
      (turn : ℕ) (s : RunState W V)
      → IsWithin limits turn 0 s
      → turn ≤ limits.max_turns
      → RoundIsWithin turn (turn_step json printers world limits request s)
  unfolding turn_step
  turn_step-IsWithin turn s within h =
      let (stopped, w) = world.is_cancelled s.world in
      let left =
        IsLeft-IsWithin turn _
          (IsWithin-events json printers world limits turn 0 s s.events w within) h in
      let P = RoundIsWithin turn in
      if_holds P stopped (λ _. left)
        (λ _.
          if_holds P (leb limits.max_turns s.stats.turns) (λ _. left)
            (λ more.
              round-IsWithin turn _
                (turned-IsWithin (suc turn) (begun json printers world limits request w s) _
                  (record {
                    turns = omega (arith, within.turns);
                    tool_calls = within.tool_calls;
                    failed = within.failed;
                    consecutive = within.consecutive;
                    log = within.log;
                  }))
                (ground (arith, within.turns, h, more))))

  abbrev pub Leaves : Left json printers world limits request → Type 0
  Leaves o = (left : Exit × RunState W V) × (o ≡ some left) × IsLeft left.1

  left_by-Leaves :
      (later : RunState W V → Left json printers world limits request) (turn : ℕ)
      → ((s : RunState W V)
          → IsWithin limits (suc turn) 0 s
          → suc turn ≤ limits.max_turns
          → Leaves (later s))
      → (flow : Flow W V) → RoundIsWithin turn flow
      → Leaves (left_by json printers world limits request later flow)
  left_by-Leaves later turn h (leave e s) left = ((e, s), refl, left)
  left_by-Leaves later turn h (go_on s) (within, more) = h s within more

  -- The loop ends when the fuel is more than the turns that are left.
  pub drive_loop-IsWithin :
      (fuel turn : ℕ) (s : RunState W V)
      → IsWithin limits turn 0 s
      → turn ≤ limits.max_turns
      → limits.max_turns < turn + fuel
      → Leaves (drive_loop json printers world limits request fuel s)
  unfolding drive_loop
  drive_loop-IsWithin zero turn s within h enough = absurd (omega (arith, h, enough))
  drive_loop-IsWithin (suc fuel) turn s within h enough =
      left_by-Leaves (drive_loop json printers world limits request fuel) turn
        (λ s' within' h'. drive_loop-IsWithin fuel (suc turn) s' within' h' (omega (arith, enough)))
        _ (turn_step-IsWithin turn s within h)
