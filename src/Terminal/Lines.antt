-- ===== src/Terminal/Lines.antt =====
-- The lines of the composer of crates/gocode-tui/src/lib.rs: a position in the text as a line and a
-- column, and back.
pub mod Positions
use Prim.Native.String.{String, count}
use Prim.Native.Nat.{min}
use gocode.Base.{ℕ, zero, suc, ◌+◌, ◌-◌, List, [], ◌∷◌, length, drop, if◌then◌else◌, leb, ltb}

-- `lines.get(i).map_or(0, |line| line.chars().count())`.
abbrev pub columns_of : List String → ℕ → ℕ
columns_of [] i = 0
columns_of (line ∷ lines) zero = count line
columns_of (line ∷ lines) (suc i) = columns_of lines i

abbrev pub below : ℕ × ℕ → ℕ × ℕ
below place = (suc place.0, place.1)

-- Past all lines, the end of the last one.
unfoldable pub cursor_line_col : List String → ℕ → ℕ × ℕ
cursor_line_col [] cursor = (0, 0)
cursor_line_col (line ∷ []) cursor =
    if leb cursor (count line) then (0, cursor) else (0, count line)
cursor_line_col (line ∷ next ∷ lines) cursor =
    let after = cursor_line_col (next ∷ lines) (cursor - suc (count line)) in
    if leb cursor (count line) then (0, cursor) else below after

-- The characters of the lines before a line, with their line feeds.
unfoldable pub index_of_line : List String → ℕ → ℕ
index_of_line [] i = 0
index_of_line (line ∷ lines) zero = 0
index_of_line (line ∷ lines) (suc i) = suc (count line) + index_of_line lines i

unfoldable pub char_index_from_line_col : List String → ℕ → ℕ → ℕ
char_index_from_line_col lines line col = index_of_line lines line + min col (columns_of lines line)
