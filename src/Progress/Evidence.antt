-- ===== src/Progress/Evidence.antt =====
-- When a run has stopped producing new evidence, read off the calls it has observed.
use gocode.Base.{
  ℕ, suc, ◌+◌, ◌≤◌, ◌≡◌, refl, ap, ◌↔◌, ◌≢◌, Bool, true, false, ◌&&◌, not, Option, none, some, List,
  [], ◌∷◌, arith, String, str_eq, if◌then◌else◌, Bool-cases, Option-cases, inl, inr, option_eq,
  eq_iff,
}
use gocode.Json.{Json}
use gocode.Contract.{ToolCall, ToolResult}
use gocode.Progress.{
  TaskProgress, default_progress, observe, observe_exploration_result, is_change,
  is_validation_call, is_success, has_no_progress, max_unchanged_exploration_results,
}

option_eq-some : (a : Option String) (s : String) → (option_eq a (some s) ≡ true) ↔ (a ≡ some s)
option_eq-some none s = (λ h. cc, λ h. cc)
option_eq-some (some t) s = (λ h. ap some ((eq_iff t s).0 h), λ h. (eq_iff t s).1 (ground arith))

module _ {V : Type 0} (json : Json V) where
  -- The progress after a run has observed these calls, the newest first.
  unfoldable pub observed : List (ToolCall V × ToolResult) → TaskProgress
  observed [] = default_progress
  observed ((call, result) ∷ es) = (observe json call result (observed es)).1

  -- An exploration that succeeded, and shows its whole output, which is not empty.
  abbrev is_informative : ToolCall V → ToolResult → Bool
  is_informative call result =
      not (is_change result)
      && not (is_validation_call json call)
      && (is_success result.status
          && not result.output.truncated
          && not (str_eq result.output.content ""))

  -- How many of the newest calls are informative explorations with this output, one after another.
  abbrev pub streak : String → List (ToolCall V × ToolResult) → ℕ
  streak content [] = 0
  streak content ((call, result) ∷ es) =
      let rest = streak content es in
      if is_informative call result && str_eq result.output.content content then suc rest else 0

  observe-informative :
      (call : ToolCall V) (result : ToolResult) (p : TaskProgress)
      → is_informative call result ≡ true
      → let p' = (observe json call result p).1 in
        (p'.last_exploration_output ≡ some result.output.content)
        × (p'.unchanged_exploration_results ≡ (
            if option_eq p.last_exploration_output (some result.output.content)
            then p.unchanged_exploration_results + 1
            else 1))
  unfolding observe observe_exploration_result
  observe-informative call result p h =
      ground (arith, option_eq-some p.last_exploration_output result.output.content)

  observe-uninformative :
      (call : ToolCall V) (result : ToolResult) (p : TaskProgress)
      → is_informative call result ≡ false
      → let p' = (observe json call result p).1 in
        (p'.last_exploration_output ≡ none) × (p'.unchanged_exploration_results ≡ 0)
  unfolding observe observe_exploration_result
  observe-uninformative call result p h = ground arith

  -- How the two fields follow the streak.
  record Tracks (p : TaskProgress) (es : List (ToolCall V × ToolResult)) : Type 0 where
    seen :
        (content : String)
        → p.last_exploration_output ≡ some content
        → p.unchanged_exploration_results ≡ streak content es
    unseen : p.last_exploration_output ≡ none → p.unchanged_exploration_results ≡ 0
    other : (content : String) → p.last_exploration_output ≢ some content → streak content es ≡ 0

  Tracks-cons :
      (call : ToolCall V) (result : ToolResult) (p : TaskProgress)
      (es : List (ToolCall V × ToolResult))
      → Tracks p es
      → Tracks (observe json call result p).1 ((call, result) ∷ es)
  Tracks-cons call result p es t =
      let content = result.output.content in
      elim (Bool-cases (is_informative call result)) [
        | inl new ↦
            let (last, count) = observe-informative call result p new in
            record {
              seen = λ c h.
                  let same : content ≡ c = ground arith in
                  ground (
                    arith,
                    eq_iff content c,
                    option_eq-some p.last_exploration_output content,
                    t.seen content,
                    t.other content,
                  );
              unseen = λ h. ground arith;
              other = λ c h. ground (arith, eq_iff content c);
            }
        | inr old ↦
            let (last, count) = observe-uninformative call result p old in
            record { seen = λ c h. ground arith; unseen = λ h. count; other = λ c h. ground arith }
      ]

  observed-Tracks : (es : List (ToolCall V × ToolResult)) → Tracks (observed es) es
  unfolding observed
  observed-Tracks [] = record { seen = λ c h. cc; unseen = λ h. refl; other = λ c h. refl }
  observed-Tracks ((call, result) ∷ es) =
      Tracks-cons call result (observed es) es (observed-Tracks es)

  -- Exploration has made no progress exactly when one output came at least three times in the latest
  -- streak of calls.
  pub no_progress_iff :
      (es : List (ToolCall V × ToolResult))
      → (has_no_progress (observed es) ≡ true)
        ↔ ((content : String) × (max_unchanged_exploration_results ≤ streak content es))
  unfolding has_no_progress
  no_progress_iff es =
      let t = observed-Tracks es in
      (
        λ h. elim (Option-cases (observed es).last_exploration_output) [
          | inl unseen ↦ absurd (ground (arith, t.unseen))
          | inr (content, seen) ↦ (content, ground (arith, t.seen content))
        ],
        λ (content, long).
            elim (Bool-cases (option_eq (observed es).last_exploration_output (some content))) [
              | inl seen ↦ ground (
                arith,
                t.seen content,
                option_eq-some (observed es).last_exploration_output content,
              )
              | inr other ↦ absurd (
                  ground (
                    arith,
                    t.other content,
                    option_eq-some (observed es).last_exploration_output content,
                  ))
            ],
      )
