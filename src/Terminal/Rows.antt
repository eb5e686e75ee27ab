-- ===== src/Terminal/Rows.antt =====
-- The rows of the transcript in crates/gocode-tui/src/lib.rs: lines are wrapped to a width, of the rows a
-- window is shown, and a selection marks some columns of them.
pub mod Wrapping
pub mod Windows
use Prim.Native.Char.{Char, code}
use Prim.Native.String
use Prim.Native.String.{String, count}
use Prim.Native.Nat.{min, max}
use gocode.Base.{
  ℕ, zero, suc, ◌+◌, ◌-◌, Bool, true, false, ◌&&◌, ◌||◌, List, [], ◌∷◌, ◌++◌, map, if◌then◌else◌,
  Option, none, some, str_eq, ltb, leb, ◌==◌, take_chars,
}
use gocode.Terminal.Cuts.{drop_chars}

-- A place in the rest of a text, or its first character if that is a blank.
abbrev pub or_first : Char → Option ℕ → Option ℕ
or_first c (some at) = some (suc at)
or_first c none = if code c == b' ' then some 0 else none

-- `rposition(|c| *c == ' ')`.
unfoldable pub last_blank : String → Option ℕ
last_blank String.[] = none
last_blank (String.◌∷◌ c s) = or_first c (last_blank s)

-- `trim_end_matches(' ')`.
unfoldable pub trim_end_blanks : String → String
trim_end_blanks String.[] = ""
trim_end_blanks (String.◌∷◌ c s) =
    let rest = trim_end_blanks s in
    if code c == b' ' && str_eq rest "" then "" else String.◌∷◌ c rest

-- Where the row ends that begins a text: after the last blank within the width, but for one at the start.
abbrev pub after_blank : Option ℕ → ℕ → ℕ
after_blank none end = end
after_blank (some zero) end = end
after_blank (some (suc at)) end = suc (suc at)

unfoldable pub row_end : ℕ → String → ℕ
row_end width s =
    let end = min width (count s) in
    if ltb end (count s) then after_blank (last_blank (take_chars end s)) end else end

unfoldable pub skip_blank : String → String
skip_blank String.[] = ""
skip_blank (String.◌∷◌ c s) = if code c == b' ' then s else String.◌∷◌ c s

-- The loop over a line; each round takes a character at least.
unfoldable pub wrap_rounds : ℕ → ℕ → String → List String
wrap_rounds zero width s = []
wrap_rounds (suc fuel) width String.[] = []
wrap_rounds (suc fuel) width (String.◌∷◌ c s) =
    let end = row_end width (String.◌∷◌ c s) in
    trim_end_blanks (take_chars end (String.◌∷◌ c s))
    ∷ wrap_rounds fuel width (skip_blank (drop_chars end (String.◌∷◌ c s)))

unfoldable pub wrap_line : ℕ → String → List String
wrap_line width s = if str_eq s "" then "" ∷ [] else wrap_rounds (count s) width s

module _ {LineKind : Type 0} where
  -- Every row keeps the kind of its line.
  unfoldable pub wrap_lines_tagged : List (String × LineKind) → ℕ → List (String × LineKind)
  wrap_lines_tagged [] width = []
  wrap_lines_tagged ((line, kind) ∷ lines) width =
      map (λ (row : String). (row, kind)) (wrap_line (max width 1) line)
      ++ wrap_lines_tagged lines width

-- The rows that are shown, from the first to before the second, for a scroll from the bottom.
unfoldable pub compute_visible_window : ℕ → ℕ → ℕ → ℕ × ℕ
compute_visible_window total visible_rows scroll =
    let rows = max visible_rows 1 in
    let end = total - min scroll (total - rows) in (end - rows, end)

abbrev pub max_visible_suggestions : ℕ
max_visible_suggestions = 6

-- The suggestions that are shown, and whether some are not.
unfoldable pub visible_suggestion_window : ℕ → ℕ → ℕ × (ℕ × Bool)
visible_suggestion_window count selected =
    let rows = max_visible_suggestions - 1 in
    let first = min (selected - (rows - 1)) (count - rows) in
    if leb count max_visible_suggestions then (0, (count, false)) else (first, (first + rows, true))

pub record SelectionPoint : Type 0 where
  pub line : ℕ
  pub col : ℕ

pub record Selection : Type 0 where
  pub anchor : SelectionPoint
  pub cursor : SelectionPoint

unfoldable pub normalized : Selection → SelectionPoint × SelectionPoint
normalized s =
    if ltb s.anchor.line s.cursor.line
      || s.anchor.line == s.cursor.line && leb s.anchor.col s.cursor.col
    then (s.anchor, s.cursor)
    else (s.cursor, s.anchor)

unfoldable pub selected_char_range : Selection → ℕ → ℕ → Option (ℕ × ℕ)
selected_char_range selection line_index line_len =
    let (start, end) = normalized selection in
    let from = if line_index == start.line then min start.col line_len else 0 in
    let to = if line_index == end.line then min end.col line_len else line_len in
    if ltb line_index start.line || ltb end.line line_index
    then none
    else if ltb from to
    then some (from, to)
    else none
