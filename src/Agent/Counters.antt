-- ===== src/Agent/Counters.antt =====
-- The counters of a run stay within its limits.
use gocode.Base.{
  ℕ, ◌+◌, ◌≤◌, ◌<◌, ◌≡◌, refl, sym, ap, ◌∙◌, Option, List, [], ◌∷◌, ◌++◌, arith, String, length,
  leb, Bool-cases, inl, inr, length-append, length-drop, subst,
}
use gocode.Paths.{FilePath}
use gocode.Json.{Json}
use gocode.Contract.{ToolCall, ToolResult, FileChange}
use gocode.Progress.{has_no_progress}
use gocode.Agent.{AgentLimits, AgentEvent}
use gocode.Agent.World.{World, Printers}
use gocode.Agent.Calls.{RunState, Flow, leave, go_on, execute_tool, record_changes}
use gocode.Agent.Step.{
  push_log, recent_tool_log_capacity, observe_result, push_result, check_limits,
}

length-push_log :
    (entry : String) (log : List String)
    → length log ≤ recent_tool_log_capacity
    → length (push_log entry log) ≤ recent_tool_log_capacity
unfolding push_log
length-push_log entry log h =
    ground (arith, length-append log (entry ∷ []), length-drop 1 (log ++ entry ∷ []))

-- What the execution of a tool and the record of its changes leave alone.
pub record Keeps {W V : Type 0} (s s' : RunState W V) : Type 0 where
  pub stats : s'.stats ≡ s.stats
  pub failures : s'.consecutive_failures ≡ s.consecutive_failures
  pub repeats : s'.same_call_repeat_count ≡ s.same_call_repeat_count
  pub log : s'.recent_tool_log ≡ s.recent_tool_log
  pub progress : s'.progress ≡ s.progress
  pub history : s'.history ≡ s.history

pub Keeps-refl : {W V : Type 0} (s : RunState W V) → Keeps s s
Keeps-refl s = record {
  stats = refl;
  failures = refl;
  repeats = refl;
  log = refl;
  progress = refl;
  history = refl;
}

module _ {W V : Type 0} (json : Json V) (world : World W V) where
  pub execute_tool-Keeps :
      (call : ToolCall V) (s : RunState W V) → Keeps s (execute_tool json world call s).1
  unfolding execute_tool
  execute_tool-Keeps call s = ground arith

  pub record_changes-Keeps :
      (before : List (FilePath × Option String)) (changes : List FileChange) (s : RunState W V)
      → Keeps s (record_changes json world before changes s)
  unfolding record_changes
  record_changes-Keeps before [] s = Keeps-refl s
  record_changes-Keeps before (change ∷ changes) s =
      let kept = record_changes-Keeps before changes _ in
      record {
        stats = kept.stats;
        failures = kept.failures;
        repeats = kept.repeats;
        log = kept.log;
        progress = kept.progress;
        history = kept.history;
      }

module _ (limits : AgentLimits) where
  -- The counters of a run in its turn `turn`, with `room` calls of the turn still to be made.
  pub record IsWithin {W V : Type 0} (turn room : ℕ) (s : RunState W V) : Type 0 where
    pub turns : s.stats.turns ≡ turn
    pub tool_calls : s.stats.tool_calls + room ≤ limits.max_total_tool_calls
    pub failed : s.stats.failed_tool_calls ≤ s.stats.tool_calls
    pub consecutive : s.consecutive_failures ≤ s.stats.failed_tool_calls
    pub log : length s.recent_tool_log ≤ recent_tool_log_capacity

  abbrev pub FlowIsWithin : {W V : Type 0} → ℕ → ℕ → Flow W V → Type 0
  FlowIsWithin turn room (leave _ s) = IsWithin turn 0 s
  FlowIsWithin turn room (go_on s) = IsWithin turn room s

  pub IsWithin-Keeps :
      {W V : Type 0} (turn room : ℕ) (s s' : RunState W V)
      → Keeps s s'
      → IsWithin turn room s
      → IsWithin turn room s'
  IsWithin-Keeps turn room s s' kept within = record {
    turns = ap (λ stats. stats.turns) kept.stats ∙ within.turns;
    tool_calls =
        subst (λ stats. stats.tool_calls + room ≤ limits.max_total_tool_calls) (sym kept.stats)
          within.tool_calls;
    failed =
        subst (λ stats. stats.failed_tool_calls ≤ stats.tool_calls) (sym kept.stats) within.failed;
    consecutive = grind (arith, kept.stats, kept.failures, within.consecutive);
    log = subst (λ log. length log ≤ recent_tool_log_capacity) (sym kept.log) within.log;
  }

module _ {W V : Type 0} (json : Json V) (printers : Printers) (world : World W V)
    (limits : AgentLimits) where
  pub observe_result-IsWithin :
      (turn room : ℕ) (call : ToolCall V) (result : ToolResult) (s : RunState W V)
      → IsWithin limits turn room s
      → s.stats.failed_tool_calls < s.stats.tool_calls
      → IsWithin limits turn room (observe_result json printers world limits call result s)
  unfolding observe_result
  observe_result-IsWithin turn room call result s within counted = record {
    turns = ground (arith, within.turns);
    tool_calls = ground (arith, within.tool_calls);
    failed = ground (arith, within.failed);
    consecutive = ground (arith, within.consecutive);
    log = length-push_log _ _ within.log;
  }

  pub push_result-IsWithin :
      (turn room : ℕ) (result : ToolResult) (s : RunState W V)
      → IsWithin limits turn room s
      → IsWithin limits turn room (push_result json printers world limits result s)
  unfolding push_result
  push_result-IsWithin turn room result s within = record {
    turns = within.turns;
    tool_calls = within.tool_calls;
    failed = within.failed;
    consecutive = within.consecutive;
    log = within.log;
  }

  -- No call is left to be made of a state that leaves the loop.
  pub IsWithin-leave :
      (turn room : ℕ) (s : RunState W V) → IsWithin limits turn room s → IsWithin limits turn 0 s
  IsWithin-leave turn room s within = record {
    turns = within.turns;
    tool_calls = omega (arith, within.tool_calls);
    failed = within.failed;
    consecutive = within.consecutive;
    log = within.log;
  }

  pub IsWithin-events :
      (turn room : ℕ) (s : RunState W V) (events : List (AgentEvent V)) (w : W)
      → IsWithin limits turn room s
      → IsWithin limits turn room (record s { events = events; world = w })
  IsWithin-events turn room s events w within = record {
    turns = within.turns;
    tool_calls = within.tool_calls;
    failed = within.failed;
    consecutive = within.consecutive;
    log = within.log;
  }

  pub check_limits-IsWithin :
      (turn room : ℕ) (call : ToolCall V) (s : RunState W V)
      → IsWithin limits turn room s
      → FlowIsWithin limits turn room (check_limits json printers world limits call s)
  unfolding check_limits
  check_limits-IsWithin turn room call s within =
      let left = IsWithin-leave turn room s within in
      elim (Bool-cases (leb 3 s.same_call_repeat_count)) [
        | inl e ↦ rw e (IsWithin-events turn 0 s _ s.world left)
        | inr e ↦ rw e (elim (Bool-cases (has_no_progress s.progress)) [
          | inl e' ↦ rw e' (IsWithin-events turn 0 s _ s.world left)
          | inr e' ↦
              rw e'
                (elim (Bool-cases (leb limits.max_consecutive_failures s.consecutive_failures)) [
                  | inl e'' ↦ rw e'' left
                  | inr e'' ↦ rw e'' within
                ])
        ])
      ]
