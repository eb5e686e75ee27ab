-- ===== src/Agent/Silence.antt =====
-- The events of an inference, in `Agent::run_turn` of crates/gocode-agent/src/agent.rs, concern no
-- tool call.
use gocode.Base.{◌+◌, refl, List, [], ◌∷◌, ◌&&◌, ltb, str_eq, is_empty, if_holds, Result, ok, err}
use gocode.Json.{Json}
use gocode.Contract.{ToolDefinition}
use gocode.ToolCalls.{Formats, finish}
use gocode.Agent.{
  AgentLimits, AgentError, AgentEvent, ChatMessage, ChatStreamEvent, FinishReason, ProviderError,
}
use gocode.Agent.Context.{RequestContext}
use gocode.Agent.World.{World, Printers, Received, item}
use gocode.Agent.Turn.{
  TurnState, Stream, receive, received, receive_all, continued, new_turn, close_turn, closed,
  streamed, run_turn, is_length,
}
use gocode.Agent.Trace.{Silent, Silent-refl, Silent-trans, Silent-append}
use gocode.Agent.Drive.{AgentRequest, formats}
use gocode.ToolCalls

module _ {V : Type 0} (json : Json V) (limits : AgentLimits) where
  abbrev pub SilentTurn : List (AgentEvent V) → Result AgentError (TurnState V) → Type 0
  SilentTurn events (ok s) = Silent json events s.events
  SilentTurn events (err _) = Unit {0}

  receive-SilentTurn :
      (event : ChatStreamEvent) (s : TurnState V) → SilentTurn s.events (receive limits event s)
  unfolding receive
  receive-SilentTurn (ChatStreamEvent.text_delta delta) s =
      if_holds (SilentTurn s.events)
        (ltb limits.max_response_chars
          (Prim.Native.String.count s.text + Prim.Native.String.count delta))
        (λ _. tt) (λ _. Silent-append json s.events _ (refl, tt))
  receive-SilentTurn (ChatStreamEvent.reasoning_delta delta) s =
      Silent-append json s.events _ (refl, tt)
  receive-SilentTurn (ChatStreamEvent.tool_call_delta delta) s =
      if_holds (SilentTurn s.events) (ToolCalls.apply delta s.assembler).0
        (λ _. Silent-refl json s.events) (λ _. tt)
  receive-SilentTurn (ChatStreamEvent.usage usage) s = Silent-refl json s.events
  receive-SilentTurn (ChatStreamEvent.request_id _) s = Silent-refl json s.events
  receive-SilentTurn (ChatStreamEvent.finished FinishReason.cancelled) s = tt
  receive-SilentTurn (ChatStreamEvent.finished FinishReason.stop) s = Silent-refl json s.events
  receive-SilentTurn (ChatStreamEvent.finished FinishReason.tool_calls) s =
      Silent-refl json s.events
  receive-SilentTurn (ChatStreamEvent.finished FinishReason.length) s = Silent-refl json s.events
  receive-SilentTurn (ChatStreamEvent.finished FinishReason.content_filter) s =
      Silent-refl json s.events
  receive-SilentTurn (ChatStreamEvent.finished (FinishReason.other _)) s = Silent-refl json s.events

  received-SilentTurn : (r : Received) (s : TurnState V) → SilentTurn s.events (received limits r s)
  received-SilentTurn Received.cancelled s = tt
  received-SilentTurn (item (ok event)) s = receive-SilentTurn event s
  received-SilentTurn (item (err error)) s = tt

  -- The events of a stream, those of a state that goes on included.
  abbrev pub SilentStream : List (AgentEvent V) → Stream V → Type 0
  SilentStream events (o, events') = SilentTurn events o × Silent json events events'

  SilentTurn-trans :
      (es fs : List (AgentEvent V)) (o : Result AgentError (TurnState V))
      → Silent json es fs
      → SilentTurn fs o
      → SilentTurn es o
  SilentTurn-trans es fs (ok s) h k = Silent-trans json es fs s.events h k
  SilentTurn-trans es fs (err e) h k = tt

  continued-SilentStream :
      (later : TurnState V → Stream V) (events : List (AgentEvent V))
      → ((s : TurnState V) → SilentStream s.events (later s))
      → (o : Result AgentError (TurnState V)) → SilentTurn events o
      → SilentStream events (continued limits later events o)
  continued-SilentStream later events h (ok s) k =
      let (turn, sent) = h s in
      (
        SilentTurn-trans events s.events (later s).0 k turn,
        Silent-trans json events s.events (later s).1 k sent,
      )
  continued-SilentStream later events h (err e) k = (tt, Silent-refl json events)

  pub receive_all-SilentStream :
      (rs : List Received) (s : TurnState V) → SilentStream s.events (receive_all limits rs s)
  unfolding receive_all
  receive_all-SilentStream [] s = (Silent-refl json s.events, Silent-refl json s.events)
  receive_all-SilentStream (r ∷ rs) s =
      continued-SilentStream (receive_all limits rs) s.events (receive_all-SilentStream rs) _
        (received-SilentTurn r s)

module _ {W V : Type 0} (json : Json V) (printers : Printers) (world : World W V)
    (limits : AgentLimits) (request : AgentRequest V) where
  closed-Silent :
      (events : List (AgentEvent V)) (w : W) (o : Stream V)
      → SilentStream json limits events o
      → Silent json events (closed world (formats json printers world limits request) limits w o).1
  unfolding close_turn
  closed-Silent events w (ok s, events') h =
      if_holds (Silent json events)
        (is_length s.finish_reason
          && str_eq s.text ""
          && is_empty (finish (formats json printers world limits request) s.assembler))
        (λ _. Silent-trans json events s.events _ h.0 (Silent-append json s.events _ (refl, tt)))
        (λ _. h.0)
  closed-Silent events w (err e, events') h = h.1

  pub run_turn-Silent :
      (context : RequestContext) (history : List (ChatMessage V)) (tools : List (ToolDefinition V))
      (events : List (AgentEvent V)) (w : W)
      → Silent json events
          (run_turn world
            (formats json printers world limits request)
            limits
            context
            history
            tools
            events
            w).1
  unfolding run_turn
  run_turn-Silent context history tools events w = stream _
    where
      stream :
          (o : Result ProviderError (List Received) × W)
          → Silent json events
              (streamed world (formats json printers world limits request) limits events o).1
      stream (ok rs, w) =
          closed-Silent events w _ (receive_all-SilentStream json limits rs (new_turn events))
      stream (err e, w) = Silent-refl json events
