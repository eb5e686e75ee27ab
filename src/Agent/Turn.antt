-- ===== src/Agent/Turn.antt =====
-- `Agent::run_turn` of crates/gocode-agent/src/agent.rs: one inference, from the request to the
-- text, the tool calls and the tokens of the response.
use Prim.Native.String
use Prim.Native.String.{count}
use gocode.Base.{
  ℕ, ◌+◌, Bool, true, false, ◌&&◌, Option, none, some, List, [], ◌∷◌, ◌++◌, String, str_eq,
  if◌then◌else◌, ltb, is_empty, Result, ok, err,
}
use gocode.Contract.{ToolCall, ToolDefinition}
use gocode.ToolCalls.{Assembler, Formats, finish}
use gocode.Agent.{
  AgentLimits, AgentLimit, AgentError, AgentEvent, ChatMessage, ChatStreamEvent, FinishReason,
  ProviderError, limit_reached, provider, truncated_before_content,
}
use gocode.Agent.Context.{RequestContext, build_request}
use gocode.Agent.World.{World, Received, item}
use gocode.ToolCalls

-- The local variables of the loop, and the events sent so far.
pub record TurnState (V : Type 0) : Type 0 where
  pub text : String
  pub assembler : Assembler
  pub input_tokens : Option ℕ
  pub finish_reason : Option FinishReason
  pub events : List (AgentEvent V)

pub record TurnResult (V : Type 0) : Type 0 where
  pub text : Option String
  pub tool_calls : List (ToolCall V)
  pub input_tokens : Option ℕ

-- A turn after its stream, or what ended it, and the events sent by then.
abbrev pub Stream : Type 0 → Type 0
Stream V = Result AgentError (TurnState V) × List (AgentEvent V)

module _ {V : Type 0} (limits : AgentLimits) where
  -- One event of the stream. The scalar values of the text are counted without overflow: the sum
  -- saturates in the program, far above any text that fits in memory.
  unfoldable pub receive : ChatStreamEvent → TurnState V → Result AgentError (TurnState V)
  receive (ChatStreamEvent.text_delta delta) s =
      if ltb limits.max_response_chars (count s.text + count delta)
      then err (limit_reached AgentLimit.response_too_large)
      else ok (record s {
        text = String.◌++◌ s.text delta;
        events = s.events ++ AgentEvent.text_delta delta ∷ [];
      })
  receive (ChatStreamEvent.reasoning_delta delta) s =
      ok (record s { events = s.events ++ AgentEvent.reasoning_delta delta ∷ [] })
  receive (ChatStreamEvent.tool_call_delta delta) s =
      let (taken, assembler) = ToolCalls.apply delta s.assembler in
      if taken
      then ok (record s { assembler = assembler })
      else err (limit_reached AgentLimit.tool_call_payload_too_large)
  receive (ChatStreamEvent.finished FinishReason.cancelled) s = err AgentError.cancelled
  receive (ChatStreamEvent.usage usage) s = ok (record s { input_tokens = usage.input_tokens })
  receive (ChatStreamEvent.finished reason) s = ok (record s { finish_reason = some reason })
  receive (ChatStreamEvent.request_id _) s = ok s

  abbrev pub received : Received → TurnState V → Result AgentError (TurnState V)
  received Received.cancelled s = err AgentError.cancelled
  received (item (ok event)) s = receive event s
  received (item (err error)) s = err (provider error)

  abbrev pub continued :
      (TurnState V → Stream V) → List (AgentEvent V) → Result AgentError (TurnState V) → Stream V
  continued later events (ok s) = later s
  continued later events (err e) = (err e, events)

  -- The loop until the stream ends; an error ends it with the events sent so far.
  unfoldable pub receive_all : List Received → TurnState V → Stream V
  receive_all [] s = (ok s, s.events)
  receive_all (r ∷ rs) s = continued (receive_all rs) s.events (received r s)

module _ {V : Type 0} where
  abbrev pub new_turn : List (AgentEvent V) → TurnState V
  new_turn events = record {
    text = "";
    assembler = [];
    input_tokens = none;
    finish_reason = none;
    events = events;
  }

abbrev pub is_length : Option FinishReason → Bool
is_length (some FinishReason.length) = true
is_length _ = false

module _ {W V : Type 0} (world : World W V) (formats : Formats V) (limits : AgentLimits) where
  abbrev pub Turned : Type 0
  Turned = Result AgentError (TurnResult V) × List (AgentEvent V) × W

  -- What follows the loop.
  unfoldable pub close_turn : W → TurnState V → Turned
  close_turn w s =
      let tool_calls = finish formats s.assembler in
      let truncated = is_length s.finish_reason && str_eq s.text "" && is_empty tool_calls in
      (
        ok (record {
          text = if str_eq s.text "" then none else some s.text;
          tool_calls = tool_calls;
          input_tokens = s.input_tokens;
        }),
        if truncated
            then s.events ++ AgentEvent.warning truncated_before_content ∷ []
            else s.events,
        w,
      )

  abbrev pub closed : W → Stream V → Turned
  closed w (ok s, events) = close_turn w s
  closed w (err e, events) = (err e, events, w)

  abbrev pub streamed : List (AgentEvent V) → Result ProviderError (List Received) × W → Turned
  streamed events (ok rs, w) = closed w (receive_all limits rs (new_turn events))
  streamed events (err e, w) = (err (provider e), events, w)

  unfoldable pub run_turn :
      RequestContext
      → List (ChatMessage V)
      → List (ToolDefinition V)
      → List (AgentEvent V)
      → W
      → Turned
  run_turn context history tools events w =
      streamed events (world.stream_chat (build_request context history tools) w)
