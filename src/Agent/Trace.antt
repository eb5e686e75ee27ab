-- ===== src/Agent/Trace.antt =====
-- What the events of an agent run say about its calls: which calls it has observed, and which edits
-- it may start. The events are those of crates/gocode-agent/src/events.rs.
use gocode.Base.{
  ◌≡◌, refl, sym, ap, subst, ◌∙◌, Bool, true, false, Option, none, some, List, [], ◌∷◌, ◌++◌, map,
  All, String,
}
use gocode.Json.{Json}
use gocode.Contract.{ToolCall, ToolResult}
use gocode.Progress.{default_progress, blocks_edit}
use gocode.Progress.Gate.{observe_all}
use gocode.Agent.{
  AgentEvent, started, cancelled, state_changed, text_delta, reasoning_delta, tool_started,
  tool_requested, tool_output_chunk, tool_finished, file_changed, file_snapshot, warning, completed,
}

-- An event that neither begins nor ends a call.
abbrev pub is_quiet : {V : Type 0} → AgentEvent V → Bool
is_quiet (tool_requested _) = false
is_quiet (tool_started _) = false
is_quiet (tool_finished _) = false
is_quiet _ = true

-- The call that has no result yet, and the calls that have one, the oldest first.
pub record Trace (V : Type 0) : Type 0 where
  pub current : Option (ToolCall V)
  pub observed : List (ToolCall V × ToolResult)

abbrev pub no_calls : {V : Type 0} → Trace V
no_calls = record { current = none; observed = [] }

abbrev pub finished : {V : Type 0} → Option (ToolCall V) → ToolResult → Trace V → Trace V
finished none result t = t
finished (some call) result t = record {
  current = none;
  observed = t.observed ++ (call, result) ∷ [];
}

unfoldable pub traced : {V : Type 0} → AgentEvent V → Trace V → Trace V
traced (tool_requested call) t = record t { current = some call }
traced (tool_finished result) t = finished t.current result t
traced _ t = t

-- The calls of a list of events.
unfoldable pub trace : {V : Type 0} → Trace V → List (AgentEvent V) → Trace V
trace t [] = t
trace t (e ∷ es) = trace (traced e t) es

pub trace-append :
    {V : Type 0} (t : Trace V) (es fs : List (AgentEvent V))
    → trace t (es ++ fs) ≡ trace (trace t es) fs
unfolding trace
trace-append t [] fs = refl
trace-append t (e ∷ es) fs = trace-append (traced e t) es fs

traced-quiet : {V : Type 0} (t : Trace V) (e : AgentEvent V) → is_quiet e ≡ true → traced e t ≡ t
unfolding traced
traced-quiet t (tool_requested _) h = cc
traced-quiet t (tool_finished _) h = cc
traced-quiet t (tool_started _) h = cc
traced-quiet t started h = refl
traced-quiet t cancelled h = refl
traced-quiet t (state_changed _) h = refl
traced-quiet t (text_delta _) h = refl
traced-quiet t (reasoning_delta _) h = refl
traced-quiet t (tool_output_chunk _ _) h = refl
traced-quiet t (file_changed _) h = refl
traced-quiet t (file_snapshot _) h = refl
traced-quiet t (warning _) h = refl
traced-quiet t (completed _) h = refl

module _ {V : Type 0} (json : Json V) where
  -- A call that would edit is not owed an inspection of a failed validation.
  abbrev pub MayRun : Option (ToolCall V) → List (ToolCall V × ToolResult) → Type 0
  MayRun none observed = Unit {0}
  MayRun (some call) observed =
      blocks_edit call (observe_all json default_progress observed) ≡ false

  abbrev pub StartMayRun : AgentEvent V → Trace V → Type 0
  StartMayRun (tool_started _) t = MayRun t.current t.observed
  StartMayRun _ t = Unit {0}

  -- Each call that is started may run at its start.
  unfoldable pub AllMayRun : Trace V → List (AgentEvent V) → Type 0
  AllMayRun t [] = Unit {0}
  AllMayRun t (e ∷ es) = StartMayRun e t × AllMayRun (traced e t) es

  pub AllMayRun-append :
      (t : Trace V) (es fs : List (AgentEvent V))
      → AllMayRun t es
      → AllMayRun (trace t es) fs
      → AllMayRun t (es ++ fs)
  unfolding trace AllMayRun
  AllMayRun-append t [] fs h k = k
  AllMayRun-append t (e ∷ es) fs h k = (h.0, AllMayRun-append (traced e t) es fs h.1 k)

  -- Nothing that concerns the calls happens between two lists of events.
  pub record Silent (es es' : List (AgentEvent V)) : Type 0 where
    pub calls : trace no_calls es' ≡ trace no_calls es
    pub starts : AllMayRun no_calls es → AllMayRun no_calls es'

  pub Silent-refl : (es : List (AgentEvent V)) → Silent es es
  Silent-refl es = record { calls = refl; starts = λ h. h }

  pub Silent-trans : (es fs gs : List (AgentEvent V)) → Silent es fs → Silent fs gs → Silent es gs
  Silent-trans es fs gs h k = record {
    calls = k.calls ∙ h.calls;
    starts = λ safe. k.starts (h.starts safe);
  }

  quiet-StartMayRun : (t : Trace V) (e : AgentEvent V) → is_quiet e ≡ true → StartMayRun e t
  quiet-StartMayRun t (tool_requested _) h = tt
  quiet-StartMayRun t (tool_finished _) h = tt
  quiet-StartMayRun t (tool_started _) h = cc
  quiet-StartMayRun t started h = tt
  quiet-StartMayRun t cancelled h = tt
  quiet-StartMayRun t (state_changed _) h = tt
  quiet-StartMayRun t (text_delta _) h = tt
  quiet-StartMayRun t (reasoning_delta _) h = tt
  quiet-StartMayRun t (tool_output_chunk _ _) h = tt
  quiet-StartMayRun t (file_changed _) h = tt
  quiet-StartMayRun t (file_snapshot _) h = tt
  quiet-StartMayRun t (warning _) h = tt
  quiet-StartMayRun t (completed _) h = tt

  trace-quiet :
      (t : Trace V) (fs : List (AgentEvent V))
      → All (λ e. is_quiet e ≡ true) fs
      → (trace t fs ≡ t) × AllMayRun t fs
  unfolding trace AllMayRun
  trace-quiet t [] h = (refl, tt)
  trace-quiet t (e ∷ fs) h =
      let same = traced-quiet t e h.0 in
      let (later, starts) = trace-quiet t fs h.1 in
      (
        ap (λ t'. trace t' fs) same ∙ later,
        (quiet-StartMayRun t e h.0, subst (λ t'. AllMayRun t' fs) (sym same) starts),
      )

  pub Silent-append :
      (es fs : List (AgentEvent V)) → All (λ e. is_quiet e ≡ true) fs → Silent es (es ++ fs)
  Silent-append es fs h =
      let (same, starts) = trace-quiet (trace no_calls es) fs h in
      record {
        calls = trace-append no_calls es fs ∙ same;
        starts = λ safe. AllMayRun-append no_calls es fs safe starts;
      }

  pub Silent-start :
      (id : String) (es fs : List (AgentEvent V))
      → MayRun (trace no_calls es).current (trace no_calls es).observed
      → All (λ e. is_quiet e ≡ true) fs
      → Silent es (es ++ tool_started id ∷ fs)
  unfolding trace traced AllMayRun
  Silent-start id es fs free h =
      let (same, starts) = trace-quiet (trace no_calls es) fs h in
      record {
        calls = trace-append no_calls es (tool_started id ∷ fs) ∙ same;
        starts = λ safe. AllMayRun-append no_calls es (tool_started id ∷ fs) safe (free, starts);
      }

  pub chunks-quiet :
      (id : String) (chunks : List String)
      → let events : List (AgentEvent V) =
          map (λ chunk. AgentEvent.tool_output_chunk id chunk) chunks in
        All (λ e. is_quiet e ≡ true) events
  chunks-quiet id [] = tt
  chunks-quiet id (chunk ∷ chunks) = (refl, chunks-quiet id chunks)
