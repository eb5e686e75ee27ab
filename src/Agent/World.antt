-- ===== src/Agent/World.antt =====
-- What surrounds an agent run: the provider, the tools, the files and the user's cancellation. A
-- state `W` of the world goes through every operation, since time passes while the run waits.
use gocode.Base.{ℕ, Bool, Option, List, String, Result}
use gocode.Paths.{FilePath}
use gocode.Contract.{ℤ, ToolCall, ToolResult, ToolError, ToolDefinition, FileChange}
use gocode.Agent.{ProviderError, ChatStreamEvent}
use gocode.Agent.Context.{ChatRequest}

-- What one round of the `select!` in `run_turn` delivers: the cancellation, or an item of the stream.
pub data Received : Type 0 where
  cancelled : Received
  item : Result ProviderError ChatStreamEvent → Received

-- `stream_chat` delivers what the run will receive until the stream ends; a stream ends at last.
-- `execute` also gives the chunks of output that the tool sent while it ran.
pub record World (W V : Type 0) : Type 0 where
  pub is_cancelled : W → Bool × W
  pub stream_chat : ChatRequest V → W → Result ProviderError (List Received) × W
  pub registered : String → Bool
  pub definitions : List (ToolDefinition V)
  pub execute : ToolCall V → W → Result ToolError ToolResult × List String × W
  pub read_file : FilePath → W → Option String
  pub notify : FileChange → W → W

-- How the standard library writes numbers: `call-{position}`, and `{:?}` of an exit code.
pub record Printers : Type 0 where
  pub call_label : ℕ → String
  pub exit_code_text : Option ℤ → String
