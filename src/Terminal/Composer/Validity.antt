-- ===== src/Terminal/Composer/Validity.antt =====
-- The composer of crates/gocode-tui/src/lib.rs never panics: every edit of a valid composer succeeds and
-- leaves a valid one.
use Prim.Native.String.{String, count}
use text.Mathlib.TextLemmas.{length-append}
use gocode.Contract.{ℤ, pos, negsuc}
use gocode.Base.{
  ℕ, zero, suc, ◌-◌, ◌≤◌, ◌<◌, ◌≡◌, refl, List, [], ◌∷◌, ◌++◌, length, length-append as length-list,
  length-drop, Option, none, some, get_elem?-of_lt, is_empty, subst, ltb, not, ◌&&◌, str_eq,
  option_eq, last?, ltb→lt, ltb-false→le, if_holds, arith, false, Option-cases, inl, inr,
  split_char, ◌==◌, unwrap_or, take_chars,
}
use gocode.Terminal.Cuts.{insert_str-at, remove_range-at, count-take_chars, drop_chars}
use gocode.Terminal.Lines.{char_index_from_line_col, cursor_line_col}
use gocode.Terminal.Lines.Positions.{char_index-le-count}
use gocode.Terminal.Composer.{
  show_after, move_to, Composer, set_chat_input, clear_chat_input, insert_at_cursor,
  backspace_at_cursor, pushed_prompt, remember_prompt, previous_index, show_entry,
  recall_previous_prompt, recall_next_prompt, move_cursor_left, move_cursor_right,
  move_cursor_vertical, click_at, key_up, key_down, paste_at_end, max_prompt_history,
}
use Prim.Native.String

-- An index of the history, if any, is within it.
abbrev pub Within : ℕ → Option ℕ → Type 0
Within entries none = Unit
Within entries (some index) = index < entries

pub record IsValid (c : Composer) : Type 0 where
  pub cursor_inside : c.cursor ≤ count c.chat_input
  pub short_history : length c.prompt_history ≤ max_prompt_history
  pub entry_inside : Within (length c.prompt_history) c.history_cursor

abbrev pub Succeeds : Option Composer → Type 0
Succeeds o = (c : Composer) × (o ≡ some c) × IsValid c

pub set_chat_input-IsValid :
    (text : String) (c : Composer) → IsValid c → IsValid (set_chat_input text c)
unfolding set_chat_input
set_chat_input-IsValid text c h = record {
  cursor_inside = omega arith;
  short_history = h.short_history;
  entry_inside = tt;
}

pub clear_chat_input-IsValid : (c : Composer) → IsValid c → IsValid (clear_chat_input c)
unfolding clear_chat_input
clear_chat_input-IsValid c h = record {
  cursor_inside = omega arith;
  short_history = h.short_history;
  entry_inside = h.entry_inside;
}

pub insert_at_cursor-Succeeds :
    (text : String) (c : Composer) → IsValid c → Succeeds (insert_at_cursor text c)
unfolding insert_at_cursor
insert_at_cursor-Succeeds text c h =
    let front = take_chars c.cursor c.chat_input in
    let rest = drop_chars c.cursor c.chat_input in
    rw (insert_str-at c.cursor text c.chat_input) (
      _,
      refl,
      record {
        cursor_inside = omega (
          arith,
          length-append front (String.◌++◌ text rest),
          length-append text rest,
          count-take_chars c.cursor c.chat_input h.cursor_inside,
        );
        short_history = h.short_history;
        entry_inside = tt;
      },
    )

pub backspace_at_cursor-Succeeds : (c : Composer) → IsValid c → Succeeds (backspace_at_cursor c)
unfolding backspace_at_cursor
backspace_at_cursor-Succeeds c h =
    if_holds Succeeds (c.cursor == 0) (λ _. (c, refl, h))
      (λ _. rw (remove_range-at (c.cursor - 1) c.cursor c.chat_input (omega arith)) (
        _,
        refl,
        record {
          cursor_inside = omega (
            arith,
            length-append (take_chars (c.cursor - 1) c.chat_input)
                (drop_chars c.cursor c.chat_input),
            count-take_chars (c.cursor - 1) c.chat_input (omega (arith, h.cursor_inside)),
          );
          short_history = h.short_history;
          entry_inside = tt;
        },
      ))

length-pushed_prompt :
    (prompt : String) (history : List String)
    → length history ≤ max_prompt_history
    → length (pushed_prompt prompt history) ≤ max_prompt_history
unfolding pushed_prompt
length-pushed_prompt prompt history h =
    let longer = history ++ (prompt ∷ []) in
    if_holds (λ (l : List String). length l ≤ max_prompt_history)
      (ltb max_prompt_history (length longer))
      (λ _. omega (arith, h, length-drop 1 longer, length-list history (prompt ∷ [])))
      (λ short. omega (arith, ltb-false→le max_prompt_history (length longer) short))

pub remember_prompt-IsValid :
    (prompt : String) (c : Composer) → IsValid c → IsValid (remember_prompt prompt c)
unfolding remember_prompt
remember_prompt-IsValid prompt c h = record {
  cursor_inside = h.cursor_inside;
  short_history =
      if_holds (λ (l : List String). length l ≤ max_prompt_history)
        (not (str_eq prompt "") && not (option_eq (last? c.prompt_history) (some prompt)))
        (λ _. length-pushed_prompt prompt c.prompt_history h.short_history) (λ _. h.short_history);
  entry_inside = tt;
}

pub show_entry-Succeeds :
    (index : ℕ) (draft : Option String) (c : Composer)
    → IsValid c
    → index < length c.prompt_history
    → Succeeds (show_entry index draft c)
unfolding show_entry set_chat_input
show_entry-Succeeds index draft c h inside =
    let (prompt, e) = get_elem?-of_lt c.prompt_history index inside in
    rw e (
      _,
      refl,
      record {
        cursor_inside = omega arith;
        short_history = h.short_history;
        entry_inside = inside;
      },
    )

previous_index-Within :
    (entries : ℕ) (browsed : Option ℕ)
    → 0 < entries
    → Within entries browsed
    → Within entries (previous_index entries browsed)
unfolding previous_index
previous_index-Within entries none some_entry h = omega (arith, some_entry)
previous_index-Within entries (some zero) some_entry h = tt
previous_index-Within entries (some (suc index)) some_entry h = omega (arith, h)

some_entry_of : (xs : List String) → is_empty xs ≡ false → 0 < length xs
some_entry_of [] h = absurd (cc h)
some_entry_of (x ∷ xs) h = omega arith

pub recall_previous_prompt-Succeeds :
    (c : Composer) → IsValid c → Succeeds (recall_previous_prompt c)
unfolding recall_previous_prompt
recall_previous_prompt-Succeeds c h =
    if_holds Succeeds (is_empty c.prompt_history) (λ _. (c, refl, h))
      (λ some_entry.
        let inside =
          previous_index-Within (length c.prompt_history) c.history_cursor
            (some_entry_of c.prompt_history some_entry) h.entry_inside in
        elim (Option-cases (previous_index (length c.prompt_history) c.history_cursor)) [
          | inl e ↦ rw e (c, refl, h)
          | inr (index, e) ↦
              rw e (
                show_entry-Succeeds index _ c h (subst (Within (length c.prompt_history)) e inside))
        ])

pub show_after-Succeeds :
    (browsed : Option ℕ) (c : Composer) → IsValid c → Succeeds (show_after browsed c)
unfolding show_after
show_after-Succeeds none c h = (c, refl, h)
show_after-Succeeds (some index) c h =
    if_holds Succeeds (ltb (suc index) (length c.prompt_history))
      (λ inside.
        show_entry-Succeeds (suc index) c.draft_before_history c h
          (ltb→lt (suc index) (length c.prompt_history) inside))
      (λ _. (_, refl, set_chat_input-IsValid (unwrap_or "" c.draft_before_history) c h))

pub recall_next_prompt-Succeeds : (c : Composer) → IsValid c → Succeeds (recall_next_prompt c)
unfolding recall_next_prompt
recall_next_prompt-Succeeds c h = show_after-Succeeds c.history_cursor c h

pub move_cursor_left-IsValid : (c : Composer) → IsValid c → IsValid (move_cursor_left c)
unfolding move_cursor_left
move_cursor_left-IsValid c h = record {
  cursor_inside = omega (arith, h.cursor_inside);
  short_history = h.short_history;
  entry_inside = h.entry_inside;
}

pub move_cursor_right-IsValid : (c : Composer) → IsValid c → IsValid (move_cursor_right c)
unfolding move_cursor_right
move_cursor_right-IsValid c h = record {
  cursor_inside = omega arith;
  short_history = h.short_history;
  entry_inside = h.entry_inside;
}

-- A place of the text for the cursor.
pub placed-IsValid :
    (c : Composer) (line col : ℕ)
    → IsValid c
    → line < length (split_char 10 c.chat_input)
    → IsValid (record c { cursor = char_index_from_line_col (split_char 10 c.chat_input) line col })
placed-IsValid c line col h inside = record {
  cursor_inside = char_index-le-count c.chat_input line col inside;
  short_history = h.short_history;
  entry_inside = h.entry_inside;
}

pub move_to-IsValid :
    (place : Option ℕ) (col : ℕ) (c : Composer) → IsValid c → IsValid (move_to place col c)
unfolding move_to
move_to-IsValid none col c h = h
move_to-IsValid (some target) col c h =
    let lines = split_char 10 c.chat_input in
    if_holds IsValid (ltb target (length lines))
      (λ inside. placed-IsValid c target _ h (ltb→lt target (length lines) inside)) (λ _. h)

pub move_cursor_vertical-IsValid :
    (delta : ℤ) (c : Composer) → IsValid c → IsValid (move_cursor_vertical delta c)
unfolding move_cursor_vertical
move_cursor_vertical-IsValid delta c h = move_to-IsValid _ _ c h

pub click_at-IsValid : (line col : ℕ) (c : Composer) → IsValid c → IsValid (click_at line col c)
unfolding click_at
click_at-IsValid line col c h = move_to-IsValid (some line) (col - 2) c h

pub paste_at_end-IsValid :
    (text : String) (c : Composer) → IsValid c → IsValid (paste_at_end text c)
unfolding paste_at_end
paste_at_end-IsValid text c h = record {
  cursor_inside = omega (arith, h.cursor_inside, length-append c.chat_input text);
  short_history = h.short_history;
  entry_inside = h.entry_inside;
}

pub key_up-Succeeds : (c : Composer) → IsValid c → Succeeds (key_up c)
unfolding key_up
key_up-Succeeds c h =
    if_holds Succeeds ((cursor_line_col (split_char 10 c.chat_input) c.cursor).0 == 0)
      (λ _. recall_previous_prompt-Succeeds c h)
      (λ _. (_, refl, move_cursor_vertical-IsValid (negsuc 0) c h))

pub key_down-Succeeds : (c : Composer) → IsValid c → Succeeds (key_down c)
unfolding key_down
key_down-Succeeds c h =
    let lines = split_char 10 c.chat_input in
    if_holds Succeeds ((cursor_line_col lines c.cursor).0 == length lines - 1)
      (λ _. recall_next_prompt-Succeeds c h)
      (λ _. (_, refl, move_cursor_vertical-IsValid (pos 1) c h))
