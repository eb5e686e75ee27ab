-- ===== src/Agent/Totals.antt =====
-- A run of crates/gocode-agent/src/agent.rs ends, and its totals respect the limits of limits.rs.
use gocode.Base.{suc, ◌≤◌, Result, ok, err}
use gocode.Json.{Json}
use gocode.Agent.{AgentLimits, AgentRunStats, AgentError, AgentCompletion}
use gocode.Agent.World.{World, Printers}
use gocode.Agent.Drive.{AgentRequest}

module _ {W V : Type 0} (json : Json V) (printers : Printers) (world : World W V)
    (limits : AgentLimits) (request : AgentRequest V) where
  -- The totals of a run that has a completion.
  abbrev pub StatsWithin : AgentRunStats → Type 0
  StatsWithin stats =
      (stats.turns ≤ suc limits.max_turns)
      × (stats.tool_calls ≤ limits.max_total_tool_calls)
      × (stats.failed_tool_calls ≤ stats.tool_calls)

  abbrev pub CompletionWithin : Result AgentError (AgentCompletion V) → Type 0
  CompletionWithin (ok completion) = StatsWithin completion.stats
  CompletionWithin (err _) = Unit {0}
