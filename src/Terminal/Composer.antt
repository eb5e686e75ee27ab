-- ===== src/Terminal/Composer.antt =====
-- The composer of crates/gocode-tui/src/lib.rs: the fields of `AppState` that its methods change, and
-- those methods, with `none` where the program would panic.
pub mod Validity
pub mod Recall
use Prim.Native.String.{String, count}
use Prim.Native.String
use Prim.Native.Nat.{min}
use gocode.Contract.{ℤ, pos, negsuc}
use gocode.Base.{
  ℕ, zero, suc, ◌+◌, ◌-◌, ◌&&◌, not, Bool, true, false, List, [], ◌∷◌, ◌++◌, length, drop, is_empty,
  if◌then◌else◌, leb, ltb, ◌==◌, Option, none, some, is_some, unwrap_or, option_eq, str_eq,
  get_elem?, last?, split_char,
}
use gocode.Terminal.Cuts.{◌>>=◌, char_to_byte_index, insert_str, remove_range}
use gocode.Terminal.Lines.{columns_of, cursor_line_col, char_index_from_line_col}

pub record Composer : Type 0 where
  pub chat_input : String
  pub cursor : ℕ
  pub suggestion_selected : ℕ
  pub prompt_history : List String
  pub history_cursor : Option ℕ
  pub draft_before_history : Option String

abbrev pub max_prompt_history : ℕ
max_prompt_history = 200

unfoldable pub set_chat_input : String → Composer → Composer
set_chat_input text c = record c {
  chat_input = text;
  cursor = count text;
  suggestion_selected = 0;
  history_cursor = none;
  draft_before_history = none;
}

unfoldable pub clear_chat_input : Composer → Composer
clear_chat_input c = record c { chat_input = ""; cursor = 0; suggestion_selected = 0 }

unfoldable pub insert_at_cursor : String → Composer → Option Composer
insert_at_cursor text c = do
  chat_input ← insert_str (char_to_byte_index c.chat_input c.cursor) text c.chat_input
  some (record c {
    chat_input = chat_input;
    cursor = c.cursor + count text;
    suggestion_selected = 0;
    history_cursor = none;
    draft_before_history = none;
  })

unfoldable pub backspace_at_cursor : Composer → Option Composer
backspace_at_cursor c =
    let start = char_to_byte_index c.chat_input (c.cursor - 1) in
    let end = char_to_byte_index c.chat_input c.cursor in
    if c.cursor == 0 then some c else (do
      chat_input ← remove_range start end c.chat_input
      some (record c {
        chat_input = chat_input;
        cursor = c.cursor - 1;
        suggestion_selected = 0;
        history_cursor = none;
        draft_before_history = none;
      }))

-- The history once a prompt is pushed, without its oldest entry if it is too long.
unfoldable pub pushed_prompt : String → List String → List String
pushed_prompt prompt history =
    let longer = history ++ (prompt ∷ []) in
    if ltb max_prompt_history (length longer) then drop 1 longer else longer

unfoldable pub remember_prompt : String → Composer → Composer
remember_prompt prompt c = record c {
  prompt_history =
      if not (str_eq prompt "") && not (option_eq (last? c.prompt_history) (some prompt))
      then pushed_prompt prompt c.prompt_history
      else c.prompt_history;
  history_cursor = none;
  draft_before_history = none;
}

-- The entry that Up shows next, for so many entries; `none` at the oldest.
unfoldable pub previous_index : ℕ → Option ℕ → Option ℕ
previous_index entries none = some (entries - 1)
previous_index entries (some zero) = none
previous_index entries (some (suc index)) = some index

-- A prompt of the history in the composer, while the draft is kept.
unfoldable pub show_entry : ℕ → Option String → Composer → Option Composer
show_entry index draft c = do
  prompt ← get_elem? c.prompt_history index
  some (record (set_chat_input prompt c) {
    history_cursor = some index;
    draft_before_history = draft;
  })

unfoldable pub recall_previous_prompt : Composer → Option Composer
recall_previous_prompt c =
    let draft = if is_some c.history_cursor then c.draft_before_history else some c.chat_input in
    if is_empty c.prompt_history
    then some c
    else elim (previous_index (length c.prompt_history) c.history_cursor) [
      | none ↦ some c
      | some index ↦ show_entry index draft c
    ]

-- What follows an entry that is shown: the next one, or the draft.
unfoldable pub show_after : Option ℕ → Composer → Option Composer
show_after none c = some c
show_after (some index) c =
    if ltb (suc index) (length c.prompt_history)
    then show_entry (suc index) c.draft_before_history c
    else some (set_chat_input (unwrap_or "" c.draft_before_history) c)

unfoldable pub recall_next_prompt : Composer → Option Composer
recall_next_prompt c = show_after c.history_cursor c

unfoldable pub move_cursor_left : Composer → Composer
move_cursor_left c = record c { cursor = c.cursor - 1 }

unfoldable pub move_cursor_right : Composer → Composer
move_cursor_right c = record c { cursor = min (c.cursor + 1) (count c.chat_input) }

unfoldable pub checked_add_signed : ℕ → ℤ → Option ℕ
checked_add_signed n (pos k) = some (n + k)
checked_add_signed n (negsuc k) = if ltb k n then some (n - suc k) else none

-- The cursor on a line at a column, if there is such a line.
unfoldable pub move_to : Option ℕ → ℕ → Composer → Composer
move_to none col c = c
move_to (some target) col c =
    let lines = split_char 10 c.chat_input in
    if ltb target (length lines)
    then record c {
      cursor = char_index_from_line_col lines target (min col (columns_of lines target));
    }
    else c

unfoldable pub move_cursor_vertical : ℤ → Composer → Composer
move_cursor_vertical delta c =
    let (line, col) = cursor_line_col (split_char 10 c.chat_input) c.cursor in
    move_to (checked_add_signed line delta) col c

-- What the keys Up and Down do where no suggestion is shown.
unfoldable pub key_up : Composer → Option Composer
key_up c =
    if (cursor_line_col (split_char 10 c.chat_input) c.cursor).0 == 0
    then recall_previous_prompt c
    else some (move_cursor_vertical (negsuc 0) c)

unfoldable pub key_down : Composer → Option Composer
key_down c =
    let lines = split_char 10 c.chat_input in
    if (cursor_line_col lines c.cursor).0 == length lines - 1
    then recall_next_prompt c
    else some (move_cursor_vertical (pos 1) c)

-- A click on a line and a column of the composer's area, where two columns are its prompt.
unfoldable pub click_at : ℕ → ℕ → Composer → Composer
click_at line col c = move_to (some line) (col - 2) c

-- The right button pastes at the end.
unfoldable pub paste_at_end : String → Composer → Composer
paste_at_end text c = record c {
  chat_input = String.◌++◌ c.chat_input text;
  suggestion_selected = 0;
}
