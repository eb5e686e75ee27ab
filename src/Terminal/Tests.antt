-- ===== src/Terminal/Tests.antt =====
-- Runs of the composer, the chat screen and the transcript of crates/gocode-tui/src/lib.rs.
use Prim.Native.String.{String, count, ◌++◌}
use Prim.Native.Nat.{max}
use gocode.Base.{
  ℕ, zero, suc, ◌-◌, ◌≤◌, ◌≡◌, refl, true, false, [], ◌∷◌, All, format, none, some, arith,
  split_char,
}
use gocode.Terminal.Cuts.{◌>>=◌, split_at_byte}
use gocode.Terminal.Lines.{cursor_line_col, char_index_from_line_col}
use gocode.Terminal.Lines.Positions.{Resolves, line_col-inverse}
use gocode.Terminal.Composer.{
  Composer, previous_index, show_entry, show_after, set_chat_input, recall_previous_prompt,
  recall_next_prompt,
}
use gocode.Terminal.Composer.Validity.{IsValid}
use gocode.Terminal.Composer.Recall.{calls, Shows, recall_next-recall_previous}
use gocode.Terminal.Keys.{KeyCode, no_modifiers}
use gocode.Terminal.Transcript.{appended, truncate}
use gocode.Terminal.Chat.{AppState, Event, handle_chat_event, submit_text}
use gocode.Terminal.Chat.Validity.{Handles, handle_chat_event-Handles}
use gocode.Terminal.Rows.{wrap_lines_tagged}
use gocode.Terminal.Rows.Wrapping.{visible, texts, wrap_lines_tagged-Keeps}

abbrev composer : Composer
composer = record {
  chat_input = "dü\nx";
  cursor = 2;
  suggestion_selected = 0;
  prompt_history = "first" ∷ "second" ∷ "third" ∷ [];
  history_cursor = none;
  draft_before_history = none;
}

composer-IsValid : IsValid composer
composer-IsValid = record {
  cursor_inside = omega arith;
  short_history = omega arith;
  entry_inside = tt;
}

abbrev state : AppState
state = record {
  composer = composer;
  custom_commands = [];
  keymap = λ action. none;
  entries = [];
  scroll = 0;
  last_failed_prompt = none;
  queued = none;
  is_chat_screen = true;
  is_free = true;
  is_running = true;
  is_asked = false;
}

recall_next-recall_previous_example :
    Shows composer (3 - 2) (calls recall_previous_prompt 2 composer)
    × ((calls recall_previous_prompt 2 composer >>= calls recall_next_prompt 2)
        ≡ some (set_chat_input "dü\nx" composer))
recall_next-recall_previous_example = recall_next-recall_previous composer 1 refl (omega arith)

line_col-inverse_example :
    Resolves (split_char 10 "dü\nx") 4 (cursor_line_col (split_char 10 "dü\nx") 4)
    × (cursor_line_col
          (split_char 10 "dü\nx")
          (char_index_from_line_col (split_char 10 "dü\nx") 0 2)
        ≡ (0, 2))
unfolding split_char
line_col-inverse_example = line_col-inverse "dü\nx" 4 0 2 (omega arith) (omega arith, omega arith)

handle_chat_event_example :
    Handles (handle_chat_event (Event.key KeyCode.backspace no_modifiers) state)
handle_chat_event_example =
    handle_chat_event-Handles (Event.key KeyCode.backspace no_modifiers) state composer-IsValid

wrap_lines_tagged-Keeps_example :
    let rows = texts (wrap_lines_tagged (("one two three", true) ∷ []) 8) in
    (visible (format rows) ≡ visible "one two three")
    × All (λ (row : String). count row ≤ max 8 1) rows
wrap_lines_tagged-Keeps_example = wrap_lines_tagged-Keeps (("one two three", true) ∷ []) 8

abbrev ten : String
ten = "aaaaaaaaaa"

abbrev times : ℕ → String → String
times zero s = ""
times (suc n) s = s ++ times n s

-- A character that lies across the limit makes the program panic.
appended_panics : appended "é" (times 399 ten ++ "aaaaaaaaa") ≡ none
unfolding appended truncate split_at_byte
appended_panics = refl

-- An answer to the debugging that was recalled leaves the browsing open: Down shows another prompt.
browsing_goes_on :
    (recall_previous_prompt (record composer { chat_input = ""; cursor = 0 })
      >>= recall_previous_prompt
      >>= λ c.
          recall_next_prompt
            (submit_text (record state { composer = c; is_asked = true })).0.composer)
    ≡ recall_previous_prompt (record composer { chat_input = ""; cursor = 0 })
unfolding recall_previous_prompt recall_next_prompt submit_text previous_index show_entry
    set_chat_input show_after
browsing_goes_on = refl
