-- ===== src/Agent/Responses.antt =====
-- What `Agent::run_turn` of crates/gocode-agent/src/agent.rs takes from a stream is bounded.
use Prim.Native.String.{len, count}
use text.Mathlib.TextLemmas.{length-append as count-append}
use gocode.Base.{
  ◌+◌, ◌≤◌, List, [], ◌∷◌, arith, length, All, ltb, str_eq, if_holds, unwrap_or, Result, ok, err,
}
use gocode.Contract.{ToolDefinition}
use gocode.ToolCalls.{Assembler, Formats, finish, max_pending_calls, max_field_bytes}
use gocode.ToolCalls.Budget.{apply-IsWithin, finish_from-IsWithin}
use gocode.Agent.{
  AgentLimits, AgentError, AgentEvent, ChatMessage, ChatStreamEvent, FinishReason, ProviderError,
}
use gocode.Agent.Context.{RequestContext}
use gocode.Agent.World.{World, Received, item}
use gocode.Agent.Turn.{
  TurnState, Stream, TurnResult, receive, received, receive_all, continued, new_turn, close_turn,
  closed, streamed, run_turn,
}
use gocode.ToolCalls
use gocode.ToolCalls.Budget

module _ {V : Type 0} (limits : AgentLimits) where
  -- A turn keeps to the budgets for the text and the calls of a response.
  pub record KeepsBudget (s : TurnState V) : Type 0 where
    pub text : count s.text ≤ limits.max_response_chars
    pub calls : Budget.IsWithin s.assembler

  abbrev pub KeepsIfOk : Result AgentError (TurnState V) → Type 0
  KeepsIfOk (ok s) = KeepsBudget s
  KeepsIfOk (err _) = Unit {0}

  receive-KeepsBudget :
      (event : ChatStreamEvent) (s : TurnState V)
      → KeepsBudget s
      → KeepsIfOk (receive limits event s)
  unfolding receive
  receive-KeepsBudget (ChatStreamEvent.text_delta delta) s h =
      if_holds KeepsIfOk (ltb limits.max_response_chars (count s.text + count delta)) (λ _. tt)
        (λ fits. record { text = ground (arith, count-append s.text delta, fits); calls = h.calls })
  receive-KeepsBudget (ChatStreamEvent.reasoning_delta delta) s h = record {
    text = h.text;
    calls = h.calls;
  }
  receive-KeepsBudget (ChatStreamEvent.tool_call_delta delta) s h =
      if_holds KeepsIfOk (ToolCalls.apply delta s.assembler).0
        (λ _. record { text = h.text; calls = apply-IsWithin delta s.assembler h.calls }) (λ _. tt)
  receive-KeepsBudget (ChatStreamEvent.usage usage) s h = record { text = h.text; calls = h.calls }
  receive-KeepsBudget (ChatStreamEvent.request_id _) s h = h
  receive-KeepsBudget (ChatStreamEvent.finished FinishReason.cancelled) s h = tt
  receive-KeepsBudget (ChatStreamEvent.finished FinishReason.stop) s h = record {
    text = h.text;
    calls = h.calls;
  }
  receive-KeepsBudget (ChatStreamEvent.finished FinishReason.tool_calls) s h = record {
    text = h.text;
    calls = h.calls;
  }
  receive-KeepsBudget (ChatStreamEvent.finished FinishReason.length) s h = record {
    text = h.text;
    calls = h.calls;
  }
  receive-KeepsBudget (ChatStreamEvent.finished FinishReason.content_filter) s h = record {
    text = h.text;
    calls = h.calls;
  }
  receive-KeepsBudget (ChatStreamEvent.finished (FinishReason.other _)) s h = record {
    text = h.text;
    calls = h.calls;
  }

  received-KeepsBudget :
      (r : Received) (s : TurnState V) → KeepsBudget s → KeepsIfOk (received limits r s)
  received-KeepsBudget Received.cancelled s h = tt
  received-KeepsBudget (item (ok event)) s h = receive-KeepsBudget event s h
  received-KeepsBudget (item (err error)) s h = tt

  continued-KeepsBudget :
      (later : TurnState V → Stream V) (events : List (AgentEvent V))
      → ((s : TurnState V) → KeepsBudget s → KeepsIfOk (later s).0)
      → (o : Result AgentError (TurnState V)) → KeepsIfOk o
      → KeepsIfOk (continued limits later events o).0
  continued-KeepsBudget later events h (ok s) k = h s k
  continued-KeepsBudget later events h (err e) k = tt

  receive_all-KeepsBudget :
      (rs : List Received) (s : TurnState V) → KeepsBudget s → KeepsIfOk (receive_all limits rs s).0
  unfolding receive_all
  receive_all-KeepsBudget [] s h = h
  receive_all-KeepsBudget (r ∷ rs) s h =
      continued-KeepsBudget (receive_all limits rs) s.events (receive_all-KeepsBudget rs) _
        (received-KeepsBudget r s h)

module _ {W V : Type 0} (world : World W V) (formats : Formats V) (limits : AgentLimits) where
  -- The budgets of a response.
  pub record IsBounded (response : TurnResult V) : Type 0 where
    pub text : count (unwrap_or "" response.text) ≤ limits.max_response_chars
    pub calls : length response.tool_calls ≤ max_pending_calls
    pub names : All (λ call. len call.name ≤ max_field_bytes) response.tool_calls

  abbrev pub BoundedIfOk : Result AgentError (TurnResult V) → Type 0
  BoundedIfOk (ok response) = IsBounded response
  BoundedIfOk (err _) = Unit {0}

  closed-IsBounded :
      (w : W) (o : Stream V)
      → KeepsIfOk limits o.0
      → BoundedIfOk (closed world formats limits w o).0
  unfolding close_turn finish
  closed-IsBounded w (ok s, events) h =
      let (size, fits) = finish_from-IsWithin formats 0 s.assembler h.calls.fields in
      record {
        text =
            if_holds (λ text. count (unwrap_or "" text) ≤ limits.max_response_chars)
              (str_eq s.text "") (λ _. omega arith) (λ _. h.text);
        calls = ground (arith, size, h.calls.calls);
        names = fits;
      }
  closed-IsBounded w (err e, events) h = tt

  streamed-IsBounded :
      (events : List (AgentEvent V)) (o : Result ProviderError (List Received) × W)
      → BoundedIfOk (streamed world formats limits events o).0
  streamed-IsBounded events (ok rs, w) =
      closed-IsBounded w (receive_all limits rs (new_turn events)) (
        receive_all-KeepsBudget limits rs (new_turn events) (record {
          text = omega arith;
          calls = record { sorted = tt; calls = omega arith; fields = tt };
        }))
  streamed-IsBounded events (err e, w) = tt

  -- A response that a turn accepts has a text within the limit of characters, at most 32 tool calls, and
  -- no name of a tool over 64 KiB, whatever the provider streams.
  pub run_turn-IsBounded :
      (context : RequestContext) (history : List (ChatMessage V)) (tools : List (ToolDefinition V))
      (events : List (AgentEvent V)) (w : W)
      → BoundedIfOk (run_turn world formats limits context history tools events w).0
  unfolding run_turn
  run_turn-IsBounded context history tools events w = streamed-IsBounded events _
