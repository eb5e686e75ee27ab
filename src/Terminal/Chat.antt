-- ===== src/Terminal/Chat.antt =====
-- `handle_chat_event` of crates/gocode-tui/src/lib.rs: what a paste or a key does on the chat screen, and
-- what it submits. `none` is a panic.
pub mod Submission
pub mod Validity
use Prim.Native.Char.{Char, code}
use Prim.Native.String.{String}
use Prim.Native.String
use Prim.Native.Nat.{min}
use gocode.Base.{
  ℕ, zero, suc, ◌+◌, ◌-◌, Bool, true, false, not, ◌&&◌, ◌||◌, List, [], ◌∷◌, length, reverse,
  if◌then◌else◌, Option, none, some, str_eq, ltb, ◌==◌, get_elem?, trim, strip_prefix,
}
use gocode.Terminal.Cuts.{◌>>=◌}
use gocode.Terminal.Commands
use gocode.Terminal.Commands.{
  CustomCommand, ChatSubmission, slash_suggestions, split_once_blank, typed_command,
  suggested_command,
}
use gocode.Terminal.Keys
use gocode.Terminal.Keys.{KeyCode, KeyModifiers, KeyAction, key_action_matches}
use gocode.Terminal.Transcript.{ChatEntry, toggled_last}
use gocode.Terminal.Composer.{
  Composer, set_chat_input, clear_chat_input, insert_at_cursor, backspace_at_cursor,
  remember_prompt, key_up, key_down, move_cursor_left, move_cursor_right,
}

-- The fields of `AppState` that the handler reads or changes. `is_chat_screen` and `is_free` say that
-- the chat is shown and that no question, prompt or error waits for an answer; `is_running` that
-- there is an activity, and `is_asked` that the debugging asks a question.
pub record AppState : Type 0 where
  pub composer : Composer
  pub custom_commands : List CustomCommand
  pub keymap : KeyAction → Option String
  pub entries : List ChatEntry
  pub scroll : ℕ
  pub last_failed_prompt : Option String
  pub queued : Option String
  pub is_chat_screen : Bool
  pub is_free : Bool
  pub is_running : Bool
  pub is_asked : Bool

pub data Event : Type 0 where
  paste : String → Event
  key : KeyCode → KeyModifiers → Event
  other_event : Event

-- The state after an event, with what is submitted.
abbrev pub Handled : Type 0
Handled = AppState × Option ChatSubmission

abbrev pub quietly : AppState → Option Handled
quietly s = some (s, none)

abbrev pub edited : AppState → Option Composer → Option Handled
edited s o = o >>= λ c. quietly (record s { composer = c })

abbrev pub usize_max : ℕ
usize_max = 18446744073709551615

unfoldable pub scroll_up : AppState → AppState
scroll_up s = record s { scroll = min (s.scroll + 5) usize_max }

unfoldable pub scroll_down : AppState → AppState
scroll_down s = record s { scroll = s.scroll - 5 }

unfoldable pub toggle_last_tool_output : AppState → AppState
toggle_last_tool_output s = record s { entries = toggled_last s.entries }

abbrev pub suggestions_of : AppState → List (String × String)
suggestions_of s = slash_suggestions s.composer.chat_input s.custom_commands

-- The suggestion that is selected, of the first and the others.
abbrev pub chosen : ℕ → String × String → List (String × String) → Option (String × String)
chosen selected first rest = get_elem? (first ∷ rest) (min selected (length rest))

unfoldable pub autocomplete : List (String × String) → Composer → Option Composer
autocomplete [] c = some c
autocomplete (first ∷ rest) c = do
  entry ← chosen c.suggestion_selected first rest
  some (set_chat_input entry.0 c)

unfoldable pub submit_text : AppState → Handled
submit_text s =
    let text = s.composer.chat_input in
    let taken = record s.composer { chat_input = ""; cursor = 0 } in
    let remembered = remember_prompt text taken in
    if s.is_asked
    then (record s { composer = taken }, some (ChatSubmission.debug_answer text))
    else if s.is_running
    then (record s { composer = remembered; queued = some text }, none)
    else (record s { composer = remembered }, some (ChatSubmission.prompt text))

-- A command empties the composer; without one, the text is submitted.
unfoldable pub submit_command : Option ChatSubmission → AppState → Handled
submit_command none s = submit_text s
submit_command (some called) s = (record s { composer = clear_chat_input s.composer }, some called)

-- The command line after a `!`, unless it is blank.
unfoldable pub line_after : Option String → Option String
line_after none = none
line_after (some line) = if str_eq (trim line) "" then none else some (trim line)

unfoldable pub shell_line : String → Option String
shell_line trimmed = line_after (strip_prefix "!" trimmed)

-- The command of a first word and what follows it.
unfoldable pub worded_command :
    List CustomCommand → Option (String × String) → Option ChatSubmission
worded_command custom_commands none = none
worded_command custom_commands (some words) = typed_command custom_commands words.0 words.1

-- The command that a text calls: by the chosen suggestion, or by its first word.
unfoldable pub called_command :
    AppState → List (String × String) → String → Option (Option ChatSubmission)
called_command s [] trimmed = some (worded_command s.custom_commands (split_once_blank trimmed))
called_command s (first ∷ rest) trimmed = do
  entry ← chosen s.composer.suggestion_selected first rest
  some (suggested_command s.custom_commands entry.0)

unfoldable pub submit_line : Option String → String → AppState → Option Handled
submit_line none trimmed s = do
  command ← called_command s (suggestions_of s) trimmed
  some (submit_command command s)
submit_line (some line) trimmed s = some (
  record s { composer = clear_chat_input (remember_prompt trimmed s.composer) },
  some (ChatSubmission.shell line),
)

-- The key Enter.
unfoldable pub submit : AppState → Option Handled
submit s =
    let trimmed = trim s.composer.chat_input in
    let submitted = submit_line (shell_line trimmed) trimmed s in
    if str_eq trimmed "" then quietly s else submitted

unfoldable pub retry : Option String → AppState → AppState
retry none s = s
retry (some prompt) s = record s {
  composer = set_chat_input prompt s.composer;
  last_failed_prompt = none;
}

unfoldable pub press_char : Char → KeyModifiers → AppState → Option Handled
press_char c modifiers s =
    if code c == b'o' && modifiers.control
    then quietly (toggle_last_tool_output s)
    else if code c == b'r' && modifiers.control
    then quietly (retry s.last_failed_prompt s)
    else if (code c == b'j' || code c == b'J') && modifiers.control
    then edited s (insert_at_cursor "\n" s.composer)
    else if not (modifiers.control || modifiers.alt)
    then edited s (insert_at_cursor (String.◌∷◌ c "") s.composer)
    else quietly s

-- Up and Down move among the suggestions, where there are some.
unfoldable pub press_up : AppState → Option Handled
press_up s =
    let c = s.composer in
    if ltb 0 (length (suggestions_of s))
    then quietly
        (record s { composer = record c { suggestion_selected = c.suggestion_selected - 1 } })
    else edited s (key_up c)

unfoldable pub press_down : AppState → Option Handled
press_down s =
    let c = s.composer in
    let suggestions = length (suggestions_of s) in
    if ltb 0 suggestions
    then quietly (record s {
      composer = record c {
        suggestion_selected = min (c.suggestion_selected + 1) (suggestions - 1);
      };
    })
    else edited s (key_down c)

unfoldable pub press : KeyCode → KeyModifiers → AppState → Option Handled
press (KeyCode.char c) modifiers s = press_char c modifiers s
press KeyCode.enter modifiers s =
    if modifiers.alt || modifiers.shift
    then edited s (insert_at_cursor "\n" s.composer)
    else submit s
press KeyCode.esc modifiers s = quietly s
press KeyCode.tab modifiers s = edited s (autocomplete (suggestions_of s) s.composer)
press KeyCode.up modifiers s = press_up s
press KeyCode.down modifiers s = press_down s
press KeyCode.left modifiers s = quietly (record s { composer = move_cursor_left s.composer })
press KeyCode.right modifiers s = quietly (record s { composer = move_cursor_right s.composer })
press KeyCode.page_up modifiers s = quietly (scroll_up s)
press KeyCode.page_down modifiers s = quietly (scroll_down s)
press KeyCode.end_key modifiers s = quietly (scroll_down s)
press KeyCode.backspace modifiers s = edited s (backspace_at_cursor s.composer)
press (KeyCode.function_key n) modifiers s = quietly s
press KeyCode.other_key modifiers s = quietly s

-- The key that a bound one stands for.
unfoldable pub resolved_key : AppState → KeyCode → KeyModifiers → KeyCode
resolved_key s code modifiers =
    if key_action_matches s.keymap KeyAction.send_message code modifiers
    then KeyCode.enter
    else if key_action_matches s.keymap KeyAction.history_previous code modifiers
    then KeyCode.up
    else if key_action_matches s.keymap KeyAction.history_next code modifiers
    then KeyCode.down
    else code

unfoldable pub handle_key : KeyCode → KeyModifiers → AppState → Option Handled
handle_key code modifiers s =
    if key_action_matches s.keymap KeyAction.open_help code modifiers
    then some (s, some (ChatSubmission.command Commands.SlashCommand.help))
    else if key_action_matches s.keymap KeyAction.open_model_picker code modifiers
    then some (s, some (ChatSubmission.command Commands.SlashCommand.model))
    else if key_action_matches s.keymap KeyAction.new_conversation code modifiers
    then some (s, some (ChatSubmission.command Commands.SlashCommand.new_session))
    else if key_action_matches s.keymap KeyAction.open_command_list code modifiers
    then quietly (record s { composer = set_chat_input "/" s.composer })
    else press (resolved_key s code modifiers) modifiers s

unfoldable pub handle_event : Event → AppState → Option Handled
handle_event (Event.paste text) s = edited s (insert_at_cursor text s.composer)
handle_event (Event.key code modifiers) s = handle_key code modifiers s
handle_event Event.other_event s = quietly s

unfoldable pub handle_chat_event : Event → AppState → Option Handled
handle_chat_event event s =
    if s.is_chat_screen && s.is_free then handle_event event s else quietly s
