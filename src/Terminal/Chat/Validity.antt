-- ===== src/Terminal/Chat/Validity.antt =====
-- The chat screen of crates/gocode-tui/src/lib.rs never panics at a paste or a key, and its composer stays
-- valid.
use Prim.Native.Char.{Char, code}
use Prim.Native.String.{String}
use Prim.Native.Nat.{min}
use gocode.Base.{
  ℕ, ◌≡◌, refl, Bool, List, [], ◌∷◌, length, Option, none, some, get_elem?-of_lt, if_holds, arith,
  ltb, str_eq, trim, ◌||◌, ◌&&◌, not, ◌==◌,
}
use gocode.Terminal.Commands.{ChatSubmission}
use gocode.Terminal.Keys.{KeyCode, KeyModifiers, KeyAction, key_action_matches}
use gocode.Terminal.Composer.{Composer, insert_at_cursor}
use gocode.Terminal.Composer.Validity.{
  IsValid, Succeeds, set_chat_input-IsValid, clear_chat_input-IsValid, insert_at_cursor-Succeeds,
  backspace_at_cursor-Succeeds, remember_prompt-IsValid, key_up-Succeeds, key_down-Succeeds,
  move_cursor_left-IsValid, move_cursor_right-IsValid,
}
use gocode.Terminal.Chat.{
  AppState, Event, Handled, edited, scroll_up, scroll_down, toggle_last_tool_output, suggestions_of,
  chosen, autocomplete, submit_text, submit_command, called_command, submit_line, shell_line,
  submit, retry, press_char, press_up, press_down, press, resolved_key, handle_key, handle_event,
  handle_chat_event,
}

-- An event is handled, and the composer is valid after it.
abbrev pub Handles : Option Handled → Type 0
Handles o = (handled : Handled) × (o ≡ some handled) × IsValid handled.0.composer

edited-Handles : (s : AppState) (o : Option Composer) → Succeeds o → Handles (edited s o)
edited-Handles s o (c, e, h) = rw e (_, refl, h)

-- Another selection.
selected-IsValid :
    (n : ℕ) (c : Composer) → IsValid c → IsValid (record c { suggestion_selected = n })
selected-IsValid n c h = record {
  cursor_inside = h.cursor_inside;
  short_history = h.short_history;
  entry_inside = h.entry_inside;
}

emptied-IsValid : (c : Composer) → IsValid c → IsValid (record c { chat_input = ""; cursor = 0 })
emptied-IsValid c h = record {
  cursor_inside = omega arith;
  short_history = h.short_history;
  entry_inside = h.entry_inside;
}

-- The selection names a suggestion wherever there are some.
pub chosen-some :
    (selected : ℕ) (first : String × String) (rest : List (String × String))
    → (entry : String × String) × (chosen selected first rest ≡ some entry)
chosen-some selected first rest =
    get_elem?-of_lt (first ∷ rest) (min selected (length rest)) (omega arith)

autocomplete-Succeeds :
    (suggestions : List (String × String)) (c : Composer)
    → IsValid c
    → Succeeds (autocomplete suggestions c)
unfolding autocomplete
autocomplete-Succeeds [] c h = (c, refl, h)
autocomplete-Succeeds (first ∷ rest) c h =
    let (entry, e) = chosen-some c.suggestion_selected first rest in
    rw e (_, refl, set_chat_input-IsValid entry.0 c h)

submit_text-IsValid : (s : AppState) → IsValid s.composer → IsValid (submit_text s).0.composer
unfolding submit_text
submit_text-IsValid s h =
    let taken = emptied-IsValid s.composer h in
    let remembered = remember_prompt-IsValid s.composer.chat_input _ taken in
    if_holds (λ (r : Handled). IsValid r.0.composer) s.is_asked (λ _. taken)
      (λ _.
        if_holds (λ (r : Handled). IsValid r.0.composer) s.is_running (λ _. remembered)
          (λ _. remembered))

submit_command-IsValid :
    (command : Option ChatSubmission) (s : AppState)
    → IsValid s.composer
    → IsValid (submit_command command s).0.composer
unfolding submit_command
submit_command-IsValid none s h = submit_text-IsValid s h
submit_command-IsValid (some called) s h = clear_chat_input-IsValid s.composer h

pub called_command-some :
    (s : AppState) (suggestions : List (String × String)) (trimmed : String)
    → (command : Option ChatSubmission) × (called_command s suggestions trimmed ≡ some command)
unfolding called_command
called_command-some s [] trimmed = (_, refl)
called_command-some s (first ∷ rest) trimmed =
    let (entry, e) = chosen-some s.composer.suggestion_selected first rest in rw e (_, refl)

submit_line-Handles :
    (line : Option String) (trimmed : String) (s : AppState)
    → IsValid s.composer
    → Handles (submit_line line trimmed s)
unfolding submit_line
submit_line-Handles none trimmed s h =
    let (command, e) = called_command-some s (suggestions_of s) trimmed in
    rw e (_, refl, submit_command-IsValid command s h)
submit_line-Handles (some line) trimmed s h =
    (_, refl, clear_chat_input-IsValid _ (remember_prompt-IsValid trimmed s.composer h))

submit-Handles : (s : AppState) → IsValid s.composer → Handles (submit s)
unfolding submit
submit-Handles s h =
    let trimmed = trim s.composer.chat_input in
    if_holds Handles (str_eq trimmed "") (λ _. (_, refl, h))
      (λ _. submit_line-Handles (shell_line trimmed) trimmed s h)

retry-IsValid :
    (failed : Option String) (s : AppState) → IsValid s.composer → IsValid (retry failed s).composer
unfolding retry
retry-IsValid none s h = h
retry-IsValid (some prompt) s h = set_chat_input-IsValid prompt s.composer h

press_char-Handles :
    (c : Char) (modifiers : KeyModifiers) (s : AppState)
    → IsValid s.composer
    → Handles (press_char c modifiers s)
unfolding press_char toggle_last_tool_output
press_char-Handles c modifiers s h =
    let inserts : (text : String) → Handles (edited s (insert_at_cursor text s.composer)) =
      λ text. edited-Handles s _ (insert_at_cursor-Succeeds text s.composer h) in
    if_holds Handles (code c == b'o' && modifiers.control) (λ _. (_, refl, h))
      (λ _.
        if_holds Handles (code c == b'r' && modifiers.control)
          (λ _. (_, refl, retry-IsValid s.last_failed_prompt s h))
          (λ _.
            if_holds Handles ((code c == b'j' || code c == b'J') && modifiers.control)
              (λ _. inserts "\n")
              (λ _.
                if_holds Handles (not (modifiers.control || modifiers.alt))
                  (λ _. inserts (String.◌∷◌ c "")) (λ _. (_, refl, h)))))

press_up-Handles : (s : AppState) → IsValid s.composer → Handles (press_up s)
unfolding press_up
press_up-Handles s h =
    if_holds Handles (ltb 0 (length (suggestions_of s)))
      (λ _. (_, refl, selected-IsValid _ s.composer h))
      (λ _. edited-Handles s _ (key_up-Succeeds s.composer h))

press_down-Handles : (s : AppState) → IsValid s.composer → Handles (press_down s)
unfolding press_down
press_down-Handles s h =
    if_holds Handles (ltb 0 (length (suggestions_of s)))
      (λ _. (_, refl, selected-IsValid _ s.composer h))
      (λ _. edited-Handles s _ (key_down-Succeeds s.composer h))

press-Handles :
    (code : KeyCode) (modifiers : KeyModifiers) (s : AppState)
    → IsValid s.composer
    → Handles (press code modifiers s)
unfolding press scroll_up scroll_down
press-Handles (KeyCode.char c) modifiers s h = press_char-Handles c modifiers s h
press-Handles KeyCode.enter modifiers s h =
    if_holds Handles (modifiers.alt || modifiers.shift)
      (λ _. edited-Handles s _ (insert_at_cursor-Succeeds "\n" s.composer h))
      (λ _. submit-Handles s h)
press-Handles KeyCode.esc modifiers s h = (_, refl, h)
press-Handles KeyCode.tab modifiers s h =
    edited-Handles s _ (autocomplete-Succeeds (suggestions_of s) s.composer h)
press-Handles KeyCode.up modifiers s h = press_up-Handles s h
press-Handles KeyCode.down modifiers s h = press_down-Handles s h
press-Handles KeyCode.left modifiers s h = (_, refl, move_cursor_left-IsValid s.composer h)
press-Handles KeyCode.right modifiers s h = (_, refl, move_cursor_right-IsValid s.composer h)
press-Handles KeyCode.page_up modifiers s h = (_, refl, h)
press-Handles KeyCode.page_down modifiers s h = (_, refl, h)
press-Handles KeyCode.end_key modifiers s h = (_, refl, h)
press-Handles KeyCode.backspace modifiers s h =
    edited-Handles s _ (backspace_at_cursor-Succeeds s.composer h)
press-Handles (KeyCode.function_key n) modifiers s h = (_, refl, h)
press-Handles KeyCode.other_key modifiers s h = (_, refl, h)

handle_key-Handles :
    (code : KeyCode) (modifiers : KeyModifiers) (s : AppState)
    → IsValid s.composer
    → Handles (handle_key code modifiers s)
unfolding handle_key
handle_key-Handles code modifiers s h =
    let bound : KeyAction → Bool = λ action. key_action_matches s.keymap action code modifiers in
    if_holds Handles (bound KeyAction.open_help) (λ _. (_, refl, h))
      (λ _.
        if_holds Handles (bound KeyAction.open_model_picker) (λ _. (_, refl, h))
          (λ _.
            if_holds Handles (bound KeyAction.new_conversation) (λ _. (_, refl, h))
              (λ _.
                if_holds Handles (bound KeyAction.open_command_list)
                  (λ _. (_, refl, set_chat_input-IsValid "/" s.composer h))
                  (λ _. press-Handles (resolved_key s code modifiers) modifiers s h))))

-- No paste and no key makes the chat screen panic: with a composer whose cursor is within its text, whose
-- history has at most 200 prompts and whose entry shown, if any, is one of them, it is handled, and the
-- composer is so again.
pub handle_chat_event-Handles :
    (event : Event) (s : AppState) → IsValid s.composer → Handles (handle_chat_event event s)
unfolding handle_chat_event handle_event
handle_chat_event-Handles event s h =
    let handles : Handles (handle_event event s) = elim event as (λ e. Handles (handle_event e s)) [
      | Event.paste text ↦ edited-Handles s _ (insert_at_cursor-Succeeds text s.composer h)
      | Event.key code modifiers ↦ handle_key-Handles code modifiers s h
      | Event.other_event ↦ (_, refl, h)
    ] in
    if_holds Handles (s.is_chat_screen && s.is_free) (λ _. handles) (λ _. (_, refl, h))
