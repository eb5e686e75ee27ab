-- ===== src/Agent/Bounds.antt =====
-- The counters of an agent run stay within the limits of crates/gocode-agent/src/limits.rs.
use gocode.Base.{
  ℕ, suc, ◌<◌, sym, Option, List, [], ◌∷◌, arith, String, length, Result, ok, err, Bool-cases, inl,
  inr, subst,
}
use gocode.Paths.{FilePath}
use gocode.Json.{Json}
use gocode.Contract.{ToolCall, ToolResult}
use gocode.Progress.{blocks_edit}
use gocode.Agent.{AgentLimits, AgentError}
use gocode.Agent.World.{World, Printers}
use gocode.Agent.Calls.{RunState, Flow, leave, go_on, record_changes}
use gocode.Agent.Step.{
  observe_result, after_result, executed, tool_result, requested, call_step, call_steps, then_flow,
}
use gocode.Agent.Counters.{
  IsWithin, FlowIsWithin, Keeps, Keeps-refl, execute_tool-Keeps, record_changes-Keeps,
  IsWithin-Keeps, observe_result-IsWithin, push_result-IsWithin, check_limits-IsWithin,
  IsWithin-leave, IsWithin-events,
}

module _ {W V : Type 0} (json : Json V) (printers : Printers) (world : World W V)
    (limits : AgentLimits) where
  after_result-IsWithin :
      (turn room : ℕ) (before : List (FilePath × Option String)) (call : ToolCall V)
      (result : ToolResult) (s : RunState W V)
      → IsWithin limits turn room s
      → s.stats.failed_tool_calls < s.stats.tool_calls
      → FlowIsWithin limits turn room (after_result json printers world limits before call result s)
  unfolding after_result
  after_result-IsWithin turn room before call result s within counted =
      let observed = observe_result json printers world limits call result s in
      let recorded = record_changes json world before result.metadata.affected_files observed in
      check_limits-IsWithin json printers world limits turn room call _ (
        push_result-IsWithin json printers world limits turn room result recorded (
          IsWithin-Keeps limits turn room observed recorded
            (record_changes-Keeps json world before result.metadata.affected_files observed)
            (observe_result-IsWithin json printers world limits turn room call result s within
              counted)))

  tool_result-Keeps :
      (call : ToolCall V) (s : RunState W V)
      → Keeps s (tool_result json printers world limits call s).1
  unfolding tool_result
  tool_result-Keeps call s = elim (Bool-cases (blocks_edit call s.progress)) [
    | inl e ↦ rw e (Keeps-refl s)
    | inr e ↦ rw e (execute_tool-Keeps json world call s)
  ]

  executed-IsWithin :
      (turn room : ℕ) (before : List (FilePath × Option String)) (call : ToolCall V)
      (outcome : Result AgentError ToolResult × RunState W V)
      → IsWithin limits turn room (outcome.1)
      → (outcome.1).stats.failed_tool_calls < (outcome.1).stats.tool_calls
      → FlowIsWithin limits turn room (executed json printers world limits before call outcome)
  executed-IsWithin turn room before call (ok result, s) within counted =
      after_result-IsWithin turn room before call result s within counted
  executed-IsWithin turn room before call (err e, s) within counted =
      IsWithin-leave json printers world limits turn room s within

  pub call_step-IsWithin :
      (turn room : ℕ) (call : ToolCall V) (s : RunState W V)
      → IsWithin limits turn (suc room) s
      → FlowIsWithin limits turn room (call_step json printers world limits call s)
  unfolding call_step requested
  call_step-IsWithin turn room call s within =
      let (stopped, w) = world.is_cancelled s.world in
      let s' = requested json printers world limits call w s in
      let kept = tool_result-Keeps call s' in
      let counted : IsWithin limits turn room s' = record {
        turns = within.turns;
        tool_calls = omega (arith, within.tool_calls);
        failed = omega (arith, within.failed);
        consecutive = within.consecutive;
        log = within.log;
      } in
      elim (Bool-cases stopped) [
        | inl e ↦ rw e (
            IsWithin-events json printers world limits turn 0 s s.events w
              (IsWithin-leave json printers world limits turn (suc room) s within))
        | inr e ↦ rw e (
            executed-IsWithin turn room _ call _ (IsWithin-Keeps limits turn room s' _ kept counted)
              (subst (λ stats. stats.failed_tool_calls < stats.tool_calls) (sym kept.stats)
                (omega (arith, within.failed))))
      ]

  pub call_steps-IsWithin :
      (turn : ℕ) (calls : List (ToolCall V)) (s : RunState W V)
      → IsWithin limits turn (length calls) s
      → FlowIsWithin limits turn 0 (call_steps json printers world limits calls s)
  unfolding call_steps
  call_steps-IsWithin turn [] s within = within
  call_steps-IsWithin turn (call ∷ calls) s within =
      then_flow-IsWithin turn (length calls) (call_steps json printers world limits calls)
        (call_steps-IsWithin turn calls) _ (call_step-IsWithin turn (length calls) call s within)
    where
      then_flow-IsWithin :
          (turn room : ℕ) (k : RunState W V → Flow W V)
          → ((s : RunState W V) → IsWithin limits turn room s → FlowIsWithin limits turn 0 (k s))
          → (flow : Flow W V) → FlowIsWithin limits turn room flow
          → FlowIsWithin limits turn 0 (then_flow json printers world limits k flow)
      then_flow-IsWithin turn room k h (leave e s) within = within
      then_flow-IsWithin turn room k h (go_on s) within = h s within
