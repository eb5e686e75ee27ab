-- ===== src/Terminal/Lines/Positions.antt =====
-- Cursors of crates/gocode-tui/src/lib.rs and their lines and columns: each gives the other.
use Prim.Native.String.{String, [], ◌∷◌, count}
use Prim.Native.Nat.{min}
use Prim.Native.Char.{Char, code}
use text.Mathlib.TextLemmas.{length-nil, length-cons}
use gocode.Base.{
  Bool, true, false, ℕ, zero, suc, ◌+◌, ◌-◌, ◌≤◌, ◌<◌, ◌≡◌, refl, ap, sym, ◌∙◌, subst, List, length,
  leb, leb→le, leb-false→lt, if_holds, arith, split_char, extend, Bool-cases, inl, inr, ◌==◌,
}
use gocode.Terminal.Lines.{
  columns_of, below, cursor_line_col, index_of_line, char_index_from_line_col,
}

-- The characters of lines that are joined by line feeds.
unfoldable pub total_chars : List String → ℕ
total_chars List.[] = 0
total_chars (List.◌∷◌ line List.[]) = count line
total_chars (List.◌∷◌ line (List.◌∷◌ next lines)) =
    suc (count line) + total_chars (List.◌∷◌ next lines)

-- A line and a column on it.
abbrev pub IsPlace : List String → ℕ × ℕ → Type 0
IsPlace lines place = (place.0 < length lines) × (place.1 ≤ columns_of lines place.0)

abbrev pub Resolves : List String → ℕ → ℕ × ℕ → Type 0
Resolves lines cursor place =
    IsPlace lines place × (char_index_from_line_col lines place.0 place.1 ≡ cursor)

cursor_line_col-Resolves :
    (line : String) (lines : List String) (cursor : ℕ)
    → cursor ≤ total_chars (List.◌∷◌ line lines)
    → Resolves (List.◌∷◌ line lines) cursor (cursor_line_col (List.◌∷◌ line lines) cursor)
unfolding cursor_line_col total_chars char_index_from_line_col index_of_line
cursor_line_col-Resolves line List.[] cursor h =
    if_holds (Resolves (List.◌∷◌ line List.[]) cursor) (leb cursor (count line))
      (λ on. (
        (omega arith, leb→le cursor (count line) on),
        omega (arith, leb→le cursor (count line) on),
      ))
      (λ past. absurd (omega (arith, h, leb-false→lt cursor (count line) past)))
cursor_line_col-Resolves line (List.◌∷◌ next lines) cursor h =
    if_holds (Resolves (List.◌∷◌ line (List.◌∷◌ next lines)) cursor) (leb cursor (count line))
      (λ on. (
        (omega arith, leb→le cursor (count line) on),
        omega (arith, leb→le cursor (count line) on),
      ))
      (λ past.
        let over = leb-false→lt cursor (count line) past in
        let rest =
          cursor_line_col-Resolves next lines (cursor - suc (count line))
            (omega (arith, h, over)) in
        ((omega (arith, rest.0.0), rest.0.1), omega (arith, rest.1, over)))

-- A place on the lines comes back from its cursor.
cursor_line_col-of_place :
    (line : String) (lines : List String) (i col : ℕ)
    → IsPlace (List.◌∷◌ line lines) (i, col)
    → cursor_line_col (List.◌∷◌ line lines) (char_index_from_line_col (List.◌∷◌ line lines) i col)
      ≡ (i, col)
unfolding cursor_line_col char_index_from_line_col index_of_line
cursor_line_col-of_place line List.[] zero col h =
    let same : 0 + min col (count line) ≡ col = omega (arith, h.1) in
    let on : leb col (count line) ≡ true = ground (arith, h.1) in rw (same, on) refl
cursor_line_col-of_place line List.[] (suc i) col h = absurd (omega (arith, h.0))
cursor_line_col-of_place line (List.◌∷◌ next lines) zero col h =
    let same : 0 + min col (count line) ≡ col = omega (arith, h.1) in
    let on : leb col (count line) ≡ true = ground (arith, h.1) in rw (same, on) refl
cursor_line_col-of_place line (List.◌∷◌ next lines) (suc i) col h =
    let rest = List.◌∷◌ next lines in
    let place = char_index_from_line_col rest i col in
    let past : leb (suc (count line) + index_of_line rest i + min col (columns_of rest i))
          (count line)
        ≡ false =
      ground arith in
    let left : suc (count line)
          + index_of_line rest i
          + min col (columns_of rest i)
          - suc (count line)
        ≡ place =
      omega arith in
    rw (past, left) (ap below (cursor_line_col-of_place next lines i col (omega (arith, h.0), h.1)))

-- The lines of a text have its characters.
total_chars-extend :
    (b : Bool) (c : Char) (line : String) (lines : List String)
    → total_chars (extend b c (List.◌∷◌ line lines)) ≡ suc (total_chars (List.◌∷◌ line lines))
unfolding total_chars
total_chars-extend true c line lines = omega (arith, length-nil)
total_chars-extend false c line List.[] = length-cons c line
total_chars-extend false c line (List.◌∷◌ next lines) = omega (arith, length-cons c line)

abbrev pub SomeLine : List String → Type 0
SomeLine lines = (line : String) × (rest : List String) × (lines ≡ List.◌∷◌ line rest)

split_char-SomeLine : (sep : ℕ) (s : String) → SomeLine (split_char sep s)
unfolding split_char
split_char-SomeLine sep [] = ("", List.[], refl)
split_char-SomeLine sep (c ∷ s) =
    let (line, rest, e) = split_char-SomeLine sep s in
    elim (Bool-cases (code c == sep)) [
      | inl b ↦ ("", List.◌∷◌ line rest, rw (b, e) refl)
      | inr b ↦ (c ∷ line, rest, rw (b, e) refl)
    ]

pub total_chars-split_char : (sep : ℕ) (s : String) → total_chars (split_char sep s) ≡ count s
unfolding split_char total_chars
total_chars-split_char sep [] = refl
total_chars-split_char sep (c ∷ s) =
    let (line, rest, e) = split_char-SomeLine sep s in
    let same : total_chars (List.◌∷◌ line rest) ≡ count s =
      ap total_chars (sym e) ∙ total_chars-split_char sep s in
    rw (e, total_chars-extend (code c == sep) c line rest, same) (sym (length-cons c s))

char_index-le-total :
    (line : String) (lines : List String) (i col : ℕ)
    → i < length (List.◌∷◌ line lines)
    → char_index_from_line_col (List.◌∷◌ line lines) i col ≤ total_chars (List.◌∷◌ line lines)
unfolding char_index_from_line_col index_of_line total_chars
char_index-le-total line List.[] zero col h = omega arith
char_index-le-total line List.[] (suc i) col h = absurd (omega (arith, h))
char_index-le-total line (List.◌∷◌ next lines) zero col h = omega arith
char_index-le-total line (List.◌∷◌ next lines) (suc i) col h =
    omega (arith, char_index-le-total next lines i col (omega (arith, h)))

pub char_index-le-count :
    (s : String) (i col : ℕ)
    → i < length (split_char 10 s)
    → char_index_from_line_col (split_char 10 s) i col ≤ count s
char_index-le-count s i col h =
    let (line, rest, e) = split_char-SomeLine 10 s in
    subst (λ n. char_index_from_line_col (split_char 10 s) i col ≤ n) (total_chars-split_char 10 s)
      (rw e (char_index-le-total line rest i col (rw e at h)))

-- A cursor within a text has a line and a column on its lines, and comes back from them; and a line and a
-- column on its lines come back from their cursor.
pub line_col-inverse :
    (s : String) (cursor i col : ℕ)
    → cursor ≤ count s
    → IsPlace (split_char 10 s) (i, col)
    → Resolves (split_char 10 s) cursor (cursor_line_col (split_char 10 s) cursor)
      × (cursor_line_col (split_char 10 s) (char_index_from_line_col (split_char 10 s) i col)
          ≡ (i, col))
line_col-inverse s cursor i col h place =
    let (line, rest, e) = split_char-SomeLine 10 s in
    let total = total_chars-split_char 10 s in
    rw e (
      cursor_line_col-Resolves line rest cursor (omega (arith, h, total, ap total_chars e)),
      cursor_line_col-of_place line rest i col (rw e at place),
    )
