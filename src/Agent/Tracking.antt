-- ===== src/Agent/Tracking.antt =====
-- The progress that a run keeps is the one that its events tell, through each tool call.
use gocode.Base.{
  ◌≡◌, refl, sym, ap, subst, ◌∙◌, false, ◌&&◌, Option, none, some, List, [], ◌∷◌, ◌++◌, String, leb,
  if_holds, Result, ok, err,
}
use gocode.Paths.{FilePath}
use gocode.Json.{Json}
use gocode.Contract.{ToolCall, ToolResult, FileChange}
use gocode.Progress.{
  TaskProgress, default_progress, observe, has_no_progress, requires_validation, blocks_edit,
  is_editing_call, take_recovery_reminder,
}
use gocode.Progress.Gate.{observe_all, Agree, observe-Agree, observe_all-append}
use gocode.Agent.{AgentLimits, AgentError, AgentWarning, AgentEvent}
use gocode.Agent.World.{World, Printers}
use gocode.Agent.Calls.{
  RunState, Exit, exhaust, fail, finish, Flow, leave, go_on, execute_tool, record_changes,
}
use gocode.Agent.Step.{
  observe_result, push_result, check_limits, after_result, executed, tool_result, requested,
  call_step, call_steps, then_flow,
}
use gocode.Agent.Counters.{record_changes-Keeps}
use gocode.Agent.Trace.{
  no_calls, traced, trace, trace-append, MayRun, AllMayRun, AllMayRun-append, Silent, Silent-refl,
  Silent-trans, Silent-append, Silent-start, chunks-quiet, finished,
}

module _ {V : Type 0} (json : Json V) where
  -- The progress that the events of a run tell.
  abbrev pub told : List (AgentEvent V) → TaskProgress
  told events = observe_all json default_progress (trace no_calls events).observed

  -- A state agrees with its events, and each call that was started might run.
  pub record Follows {W : Type 0} (call : Option (ToolCall V)) (s : RunState W V) : Type 0 where
    pub current : (trace no_calls s.events).current ≡ call
    pub progress : Agree json s.progress (told s.events)
    pub starts : AllMayRun json no_calls s.events

  abbrev pub Leaves : {W : Type 0} → Exit → RunState W V → Type 0
  Leaves (finish _) s = Follows none s × (requires_validation s.progress ≡ false)
  Leaves (fail _) s = AllMayRun json no_calls s.events
  Leaves (exhaust _) s = AllMayRun json no_calls s.events

  abbrev pub FlowFollows : {W : Type 0} → Flow W V → Type 0
  FlowFollows (leave e s) = Leaves e s
  FlowFollows (go_on s) = Follows none s

  pub Silent-Follows :
      {W : Type 0} (call : Option (ToolCall V)) (s s' : RunState W V)
      → Silent json s.events s'.events
      → s'.progress ≡ s.progress
      → Follows call s
      → Follows call s'
  Silent-Follows call s s' silent same follows = record {
    current = ap (λ t. t.current) silent.calls ∙ follows.current;
    progress =
        subst (λ t. Agree json s'.progress (observe_all json default_progress t.observed))
          (sym silent.calls)
          (subst (λ p. Agree json p (told s.events)) (sym same) follows.progress);
    starts = silent.starts follows.starts;
  }

module _ {W V : Type 0} (json : Json V) (printers : Printers) (world : World W V)
    (limits : AgentLimits) where
  requested-Follows :
      (call : ToolCall V) (w : W) (s : RunState W V)
      → Follows json none s
      → Follows json (some call) (requested json printers world limits call w s)
  unfolding requested trace traced AllMayRun
  requested-Follows call w s follows =
      let events = AgentEvent.tool_requested call ∷ [] in
      let appended = trace-append no_calls s.events events in
      record {
        current = ap (λ t. t.current) appended;
        progress =
            subst (λ t. Agree json s.progress (observe_all json default_progress t.observed))
              (sym appended) follows.progress;
        starts = AllMayRun-append json no_calls s.events events follows.starts (tt, tt);
      }

  -- A call that is not blocked may start.
  MayRun-of_Follows :
      (call : ToolCall V) (s : RunState W V)
      → Follows json (some call) s
      → blocks_edit call s.progress ≡ false
      → MayRun json (trace no_calls s.events).current (trace no_calls s.events).observed
  unfolding blocks_edit
  MayRun-of_Follows call s follows free =
      rw follows.current (ap (λ b. b && is_editing_call call) (sym follows.progress.1) ∙ free)

  execute_tool-Follows :
      (call : ToolCall V) (s : RunState W V)
      → Follows json (some call) s
      → blocks_edit call s.progress ≡ false
      → Follows json (some call) (execute_tool json world call s).1
  unfolding execute_tool
  execute_tool-Follows call s follows free =
      let (result, chunks, w) = world.execute call s.world in
      if_holds (λ (o : Result AgentError ToolResult × RunState W V). Follows json (some call) o.1)
        (world.registered call.name)
        (λ _.
          Silent-Follows json (some call) s _
            (Silent-start json call.id s.events _ (MayRun-of_Follows call s follows free)
              (chunks-quiet json call.id chunks))
            refl follows)
        (λ _.
          Silent-Follows json (some call) s _ (Silent-append json s.events _ (refl, tt)) refl
            follows)

  tool_result-Follows :
      (call : ToolCall V) (s : RunState W V)
      → Follows json (some call) s
      → Follows json (some call) (tool_result json printers world limits call s).1
  unfolding tool_result
  tool_result-Follows call s follows =
      if_holds (λ (o : Result AgentError ToolResult × RunState W V). Follows json (some call) o.1)
        (blocks_edit call s.progress) (λ _. follows)
        (λ free. execute_tool-Follows call s follows free)

  record_changes-Silent :
      (before : List (FilePath × Option String)) (changes : List FileChange) (s : RunState W V)
      → Silent json s.events (record_changes json world before changes s).events
  unfolding record_changes
  record_changes-Silent before [] s = Silent-refl json s.events
  record_changes-Silent before (change ∷ changes) s =
      Silent-trans json s.events _ _ (Silent-append json s.events _ (refl, (refl, tt)))
        (record_changes-Silent before changes _)

  -- The result of a call, from its observation to its last event.
  pushed-Follows :
      (before : List (FilePath × Option String)) (call : ToolCall V) (result : ToolResult)
      (s : RunState W V)
      → Follows json (some call) s
      → Follows json none (
          push_result json printers world limits result (
            record_changes json world before result.metadata.affected_files
              (observe_result json printers world limits call result s)))
  unfolding push_result take_recovery_reminder trace traced AllMayRun observe_result observe_all
  pushed-Follows before call result s follows =
      let changes = result.metadata.affected_files in
      let observed = observe_result json printers world limits call result s in
      let recorded = record_changes json world before changes observed in
      let silent : Silent json s.events recorded.events =
        record_changes-Silent before changes observed in
      let kept = record_changes-Keeps json world before changes observed in
      let end = AgentEvent.tool_finished result ∷ [] in
      let seen = trace no_calls s.events in
      let whole : trace no_calls (recorded.events ++ end) ≡ finished (some call) result seen =
        trace-append no_calls recorded.events end
        ∙ ap (traced (AgentEvent.tool_finished result)) silent.calls
        ∙ ap (λ c. finished c result seen) follows.current in
      let after = (observe json call result (told json s.events)).1 in
      let agree : Agree json recorded.progress after =
        subst (λ p. Agree json p after) (sym kept.progress)
          (observe-Agree json call result s.progress (told json s.events) follows.progress) in
      record {
        current = ap (λ t. t.current) whole;
        progress =
            subst (λ t. Agree json recorded.progress (observe_all json default_progress t.observed))
              (sym whole)
              (subst (Agree json recorded.progress)
                (sym (observe_all-append json default_progress seen.observed ((call, result) ∷ [])))
                agree);
        starts =
            AllMayRun-append json no_calls recorded.events end (silent.starts follows.starts)
              (tt, tt);
      }

  check_limits-Follows :
      (call : ToolCall V) (s : RunState W V)
      → Follows json none s
      → FlowFollows json (check_limits json printers world limits call s)
  unfolding check_limits
  check_limits-Follows call s follows =
      let P = FlowFollows json in
      let warned : (w : AgentWarning)
          → AllMayRun json no_calls (s.events ++ AgentEvent.warning w ∷ []) =
        λ w. (Silent-append json s.events _ (refl, tt)).starts follows.starts in
      if_holds P (leb 3 s.same_call_repeat_count) (λ _. warned _)
        (λ _.
          if_holds P (has_no_progress s.progress) (λ _. warned _)
            (λ _.
              if_holds P (leb limits.max_consecutive_failures s.consecutive_failures)
                (λ _. follows.starts) (λ _. follows)))

  executed-Follows :
      (before : List (FilePath × Option String)) (call : ToolCall V)
      (outcome : Result AgentError ToolResult × RunState W V)
      → Follows json (some call) outcome.1
      → FlowFollows json (executed json printers world limits before call outcome)
  unfolding after_result
  executed-Follows before call (ok result, s) follows =
      check_limits-Follows call _ (pushed-Follows before call result s follows)
  executed-Follows before call (err e, s) follows = follows.starts

  pub call_step-Follows :
      (call : ToolCall V) (s : RunState W V)
      → Follows json none s
      → FlowFollows json (call_step json printers world limits call s)
  unfolding call_step
  call_step-Follows call s follows =
      let (stopped, w) = world.is_cancelled s.world in
      let s' = requested json printers world limits call w s in
      if_holds (FlowFollows json) stopped (λ _. follows.starts)
        (λ _.
          executed-Follows _ call _
            (tool_result-Follows call s' (requested-Follows call w s follows)))

  then_flow-Follows :
      (k : RunState W V → Flow W V)
      → ((s : RunState W V) → Follows json none s → FlowFollows json (k s))
      → (flow : Flow W V) → FlowFollows json flow
      → FlowFollows json (then_flow json printers world limits k flow)
  then_flow-Follows k h (leave e s) follows = follows
  then_flow-Follows k h (go_on s) follows = h s follows

  pub call_steps-Follows :
      (calls : List (ToolCall V)) (s : RunState W V)
      → Follows json none s
      → FlowFollows json (call_steps json printers world limits calls s)
  unfolding call_steps
  call_steps-Follows [] s follows = follows
  call_steps-Follows (call ∷ calls) s follows =
      then_flow-Follows (call_steps json printers world limits calls) (call_steps-Follows calls) _
        (call_step-Follows call s follows)
