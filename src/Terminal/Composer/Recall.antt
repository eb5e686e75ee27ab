-- ===== src/Terminal/Composer/Recall.antt =====
-- The recall of earlier prompts in the composer of crates/gocode-tui/src/lib.rs: so many calls back
-- show the prompts from the latest on, and as many forward bring the draft back.
use Prim.Native.String.{String}
use gocode.Base.{
  ℕ, zero, suc, ◌+◌, ◌-◌, ◌<◌, ◌≡◌, refl, ap, ◌∙◌, List, [], ◌∷◌, length, Option, none, some,
  get_elem?, get_elem?-of_lt, is_empty, ltb, arith, true, false,
}
use gocode.Terminal.Cuts.{◌>>=◌}
use gocode.Terminal.Composer.{
  Composer, set_chat_input, previous_index, show_entry, recall_previous_prompt, recall_next_prompt,
  show_after,
}

-- So many calls of an operation, one after the other.
abbrev pub calls : (Composer → Option Composer) → ℕ → Composer → Option Composer
calls key zero c = some c
calls key (suc n) c = calls key n c >>= key

-- The composer that shows an entry of its history and keeps a draft.
unfoldable pub showing : ℕ → String → String → Composer → Composer
showing index prompt draft c = record (set_chat_input prompt c) {
  history_cursor = some index;
  draft_before_history = some draft;
}

-- Showing some entry of the history, with the draft kept.
abbrev pub Shows : Composer → ℕ → Option Composer → Type 0
Shows c index shown =
    (prompt : String) × (get_elem? c.prompt_history index ≡ some prompt)
    × (shown ≡ some (showing index prompt c.chat_input c))

not_empty : (xs : List String) → 0 < length xs → is_empty xs ≡ false
not_empty [] h = absurd (omega (arith, h))
not_empty (x ∷ xs) h = refl

show_entry-showing :
    (c : Composer) (index : ℕ) (prompt draft : String)
    → get_elem? c.prompt_history index ≡ some prompt
    → show_entry index (some draft) c ≡ some (showing index prompt draft c)
unfolding show_entry showing set_chat_input
show_entry-showing c index prompt draft e = rw e refl

previous-first :
    (c : Composer)
    → c.history_cursor ≡ none
    → 0 < length c.prompt_history
    → Shows c (length c.prompt_history - 1) (recall_previous_prompt c)
unfolding recall_previous_prompt previous_index
previous-first c now some_entry =
    let (prompt, e) =
      get_elem?-of_lt c.prompt_history (length c.prompt_history - 1) (omega (arith, some_entry)) in
    (
      prompt,
      e,
      simp (now, not_empty c.prompt_history some_entry)
          (show_entry-showing c (length c.prompt_history - 1) prompt c.chat_input e),
    )

previous-showing :
    (c : Composer) (index : ℕ) (prompt draft : String)
    → suc index < length c.prompt_history
    → (older : String) × (get_elem? c.prompt_history index ≡ some older)
      × (recall_previous_prompt (showing (suc index) prompt draft c)
          ≡ some (showing index older draft c))
unfolding recall_previous_prompt previous_index show_entry showing set_chat_input
previous-showing c index prompt draft h =
    let (older, e) = get_elem?-of_lt c.prompt_history index (omega (arith, h)) in
    (older, e, rw (not_empty c.prompt_history (omega (arith, h)), e) refl)

next-showing :
    (c : Composer) (index : ℕ) (prompt draft newer : String)
    → get_elem? c.prompt_history (suc index) ≡ some newer
    → suc index < length c.prompt_history
    → recall_next_prompt (showing index prompt draft c) ≡ some (showing (suc index) newer draft c)
unfolding recall_next_prompt show_after show_entry showing set_chat_input
next-showing c index prompt draft newer e h =
    let inside : ltb (suc index) (length c.prompt_history) ≡ true = ground (arith, h) in
    rw (inside, e) refl

next-latest :
    (c : Composer) (index : ℕ) (prompt draft : String)
    → suc index ≡ length c.prompt_history
    → recall_next_prompt (showing index prompt draft c) ≡ some (set_chat_input draft c)
unfolding recall_next_prompt show_after showing set_chat_input
next-latest c index prompt draft h =
    let outside : ltb (suc index) (length c.prompt_history) ≡ false = ground (arith, h) in
    rw outside refl

-- Calls of `recall_previous_prompt` from a composer that does not browse.
calls-previous :
    (c : Composer) (n : ℕ)
    → c.history_cursor ≡ none
    → n < length c.prompt_history
    → Shows c (length c.prompt_history - suc n) (calls recall_previous_prompt (suc n) c)
calls-previous c zero now h = previous-first c now h
calls-previous c (suc n) now h =
    let index = length c.prompt_history - suc (suc n) in
    let newer : length c.prompt_history - suc n ≡ suc index = omega (arith, h) in
    let (prompt, _, shown) = calls-previous c n now (omega (arith, h)) in
    let (older, e, step) = previous-showing c index prompt c.chat_input (omega (arith, h)) in
    (
      older,
      e,
      ap (λ s. s >>= recall_previous_prompt)
            (shown ∙ ap (λ i. some (showing i prompt c.chat_input c)) newer)
          ∙ step,
    )

-- Calls of `recall_next_prompt` from an entry on, up to the latest one.
calls-next :
    (c : Composer) (index n : ℕ) (prompt draft : String)
    → index + n < length c.prompt_history
    → (newer : String) × (calls recall_next_prompt n (showing index prompt draft c)
        ≡ some (showing (index + n) newer draft c))
calls-next c index zero prompt draft h =
    let same : index ≡ index + 0 = omega arith in
    (prompt, ap (λ i. some (showing i prompt draft c)) same)
calls-next c index (suc n) prompt draft h =
    let (newer, shown) = calls-next c index n prompt draft (omega (arith, h)) in
    let (latest, e) = get_elem?-of_lt c.prompt_history (suc (index + n)) (omega (arith, h)) in
    let same : suc (index + n) ≡ index + suc n = omega arith in
    (
      latest,
      ap (λ s. s >>= recall_next_prompt) shown
          ∙ next-showing c (index + n) newer draft latest e (omega (arith, h))
          ∙ ap (λ i. some (showing i latest draft c)) same,
    )

-- In a composer that does not browse, so many calls of `recall_previous_prompt` as there are entries at most
-- show the entry so far from the end of the history, and as many of `recall_next_prompt` bring the draft
-- back, with the cursor at its end. These are what Up and Down call on the first and the last line of a
-- text without suggestions.
pub recall_next-recall_previous :
    (c : Composer) (n : ℕ)
    → c.history_cursor ≡ none
    → n < length c.prompt_history
    → Shows c (length c.prompt_history - suc n) (calls recall_previous_prompt (suc n) c)
      × ((calls recall_previous_prompt (suc n) c >>= calls recall_next_prompt (suc n))
          ≡ some (set_chat_input c.chat_input c))
recall_next-recall_previous c n now h =
    let index = length c.prompt_history - suc n in
    let (prompt, e, shown) = calls-previous c n now h in
    let (newer, latest) = calls-next c index n prompt c.chat_input (omega (arith, h)) in
    (
      (prompt, e, shown),
      ap (λ s. s >>= calls recall_next_prompt (suc n)) shown
          ∙ ap (λ s. s >>= recall_next_prompt) latest
          ∙ next-latest c (index + n) newer c.chat_input (omega (arith, h)),
    )
