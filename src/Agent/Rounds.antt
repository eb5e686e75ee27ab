-- ===== src/Agent/Rounds.antt =====
-- The progress that a run keeps is the one that its events tell, through the rounds of `Agent::drive`
-- in crates/gocode-agent/src/agent.rs.
use gocode.Base.{ℕ, zero, suc, ◌+◌, refl, none, some, length, ltb, leb, is_empty, if_holds, ok, err}
use gocode.Json.{Json}
use gocode.Progress.{requires_validation}
use gocode.Agent.{AgentLimits}
use gocode.Agent.World.{World, Printers}
use gocode.Agent.Turn.{TurnResult, Turned}
use gocode.Agent.Calls.{RunState, Flow, leave, go_on}
use gocode.Agent.Trace.{Silent, Silent-append}
use gocode.Agent.Tracking.{Follows, Leaves, FlowFollows, Silent-Follows, call_steps-Follows}
use gocode.Agent.Silence.{run_turn-Silent}
use gocode.Agent.Drive.{
  AgentRequest, after_turn, turned, turn_step, begun, drive_loop, left_by, formats, Left,
}

module _ {W V : Type 0} (json : Json V) (printers : Printers) (world : World W V)
    (limits : AgentLimits) (request : AgentRequest V) where
  after_turn-Follows :
      (response : TurnResult V) (s : RunState W V)
      → Follows json none s
      → FlowFollows json (after_turn json printers world limits request response s)
  unfolding after_turn
  after_turn-Follows response s follows =
      let P = FlowFollows json in
      if_holds P (is_empty response.tool_calls)
        (λ _.
          if_holds P (requires_validation s.progress) (λ _. follows.starts)
            (λ settled. (follows, settled)))
        (λ _.
          if_holds P
            (ltb limits.max_total_tool_calls (s.stats.tool_calls + length response.tool_calls))
            (λ _. follows.starts)
            (λ _.
              if_holds P (ltb limits.max_tool_calls_per_turn (length response.tool_calls))
                (λ _. follows.starts)
                (λ _. call_steps-Follows json printers world limits response.tool_calls _ (
                  Silent-Follows json none s _ (Silent-append json s.events _ (refl, tt)) refl
                    follows))))

  turned-Follows :
      (s : RunState W V)
      (outcome : Turned world (formats json printers world limits request) limits)
      → Silent json s.events outcome.1
      → Follows json none s
      → FlowFollows json (turned json printers world limits request s outcome)
  turned-Follows s (ok response, events, w) silent follows =
      after_turn-Follows response _ (Silent-Follows json none s _ silent refl follows)
  turned-Follows s (err e, events, w) silent follows = silent.starts follows.starts

  turn_step-Follows :
      (s : RunState W V)
      → Follows json none s
      → FlowFollows json (turn_step json printers world limits request s)
  unfolding turn_step
  turn_step-Follows s follows =
      let (stopped, w) = world.is_cancelled s.world in
      let P = FlowFollows json in
      let s' = begun json printers world limits request w s in
      if_holds P stopped (λ _. follows.starts)
        (λ _.
          if_holds P (leb limits.max_turns s.stats.turns) (λ _. follows.starts)
            (λ _.
              turned-Follows s' _
                (run_turn-Silent json printers world limits request _ _ _ s'.events w)
                (Silent-Follows json none s s' (Silent-append json s.events _ (refl, tt)) refl
                  follows)))

  abbrev pub LeftFollows : Left json printers world limits request → Type 0
  LeftFollows none = Unit {0}
  LeftFollows (some (e, s)) = Leaves json e s

  left_by-Follows :
      (later : RunState W V → Left json printers world limits request)
      → ((s : RunState W V) → Follows json none s → LeftFollows (later s))
      → (flow : Flow W V) → FlowFollows json flow
      → LeftFollows (left_by json printers world limits request later flow)
  left_by-Follows later h (leave e s) follows = follows
  left_by-Follows later h (go_on s) follows = h s follows

  pub drive_loop-Follows :
      (fuel : ℕ) (s : RunState W V)
      → Follows json none s
      → LeftFollows (drive_loop json printers world limits request fuel s)
  unfolding drive_loop
  drive_loop-Follows zero s follows = tt
  drive_loop-Follows (suc fuel) s follows =
      left_by-Follows (drive_loop json printers world limits request fuel) (drive_loop-Follows fuel)
        _ (turn_step-Follows s follows)
