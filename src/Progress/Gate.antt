-- ===== src/Progress/Gate.antt =====
-- When a run owes a validation, and when an edit is blocked, read off the calls it has observed.
use gocode.Base.{
  ◌≡◌, refl, sym, ap, ◌∙◌, ◌↔◌, Bool, true, false, ◌&&◌, not, List, [], ◌∷◌, ◌++◌, arith,
  if◌then◌else◌,
}
use gocode.Json.{Json}
use gocode.Progress.Latch.{latch, SetAtLast, latch_iff}
use gocode.Contract.{ToolCall, ToolResult}
use gocode.Progress.{
  TaskProgress, default_progress, observe, observe_exploration_result, is_change,
  is_validation_call, validation_succeeded, is_recovery_evidence, requires_validation,
}

module _ {V : Type 0} (json : Json V) where
  abbrev pub Observation : Type 0
  Observation = ToolCall V × ToolResult

  -- The progress after a run has observed these calls, the oldest first.
  unfoldable pub observe_all : TaskProgress → List Observation → TaskProgress
  observe_all progress [] = progress
  observe_all progress ((call, result) ∷ es) = observe_all (observe json call result progress).1 es

  abbrev pub changes_files : Observation → Bool
  changes_files (call, result) = is_change result

  -- A validation that is no change, and its outcome.
  abbrev pub validates : Observation → Bool
  validates (call, result) = not (is_change result) && is_validation_call json call

  abbrev pub validates_well : Observation → Bool
  validates_well (call, result) = validates (call, result) && validation_succeeded result

  abbrev pub validates_badly : Observation → Bool
  validates_badly (call, result) = validates (call, result) && not (validation_succeeded result)

  abbrev pub gives_evidence : Observation → Bool
  gives_evidence (call, result) =
      not (is_change result)
      && (if is_validation_call json call
          then validation_succeeded result
          else is_recovery_evidence call result)

  pending-observe :
      (call : ToolCall V) (result : ToolResult) (progress : TaskProgress)
      → (observe json call result progress).1.validation_pending ≡ (
          if is_change result
          then true
          else if validates_well (call, result)
          then false
          else progress.validation_pending)
  unfolding observe observe_exploration_result
  pending-observe call result progress = ground arith

  required-observe :
      (call : ToolCall V) (result : ToolResult) (progress : TaskProgress)
      → (observe json call result progress).1.recovery_required ≡ (
          if validates_badly (call, result)
          then true
          else if gives_evidence (call, result)
          then false
          else progress.recovery_required)
  unfolding observe observe_exploration_result
  required-observe call result progress = ground arith

  -- Two states of progress agree on what a run owes.
  abbrev pub Agree : TaskProgress → TaskProgress → Type 0
  Agree p q =
      (p.validation_pending ≡ q.validation_pending) × (p.recovery_required ≡ q.recovery_required)

  pub observe-Agree :
      (call : ToolCall V) (result : ToolResult) (p q : TaskProgress)
      → Agree p q
      → Agree (observe json call result p).1 (observe json call result q).1
  observe-Agree call result p q (pending, required) = (
    pending-observe call result p ∙ rw pending (sym (pending-observe call result q)),
    required-observe call result p ∙ rw required (sym (required-observe call result q)),
  )

  pub observe_all-append :
      (progress : TaskProgress) (es fs : List Observation)
      → observe_all progress (es ++ fs) ≡ observe_all (observe_all progress es) fs
  unfolding observe_all
  observe_all-append progress [] fs = refl
  observe_all-append progress ((call, result) ∷ es) fs =
      observe_all-append (observe json call result progress).1 es fs

  pending-observe_all :
      (progress : TaskProgress) (es : List Observation)
      → (observe_all progress es).validation_pending
        ≡ latch changes_files validates_well progress.validation_pending es
  unfolding observe_all
  pending-observe_all progress [] = refl
  pending-observe_all progress ((call, result) ∷ es) =
      pending-observe_all (observe json call result progress).1 es
      ∙ ap (λ b. latch changes_files validates_well b es) (pending-observe call result progress)

  -- A run owes a validation exactly when some change of files came after all the validations that
  -- succeeded.
  pub requires_validation_iff :
      (es : List Observation)
      → (requires_validation (observe_all default_progress es) ≡ true)
        ↔ SetAtLast changes_files validates_well es
  requires_validation_iff es =
      rw (pending-observe_all default_progress es) (latch_iff changes_files validates_well es)
