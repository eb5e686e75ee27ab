-- ===== src/Base/Strings.antt =====
-- Rust's `str` operations that the program uses, on the native text: `len` counts the bytes of
-- UTF-8 and `count` the scalar values, as `str::len` and `str::chars().count()` do.
use Prim.Native.Nat.{ℕ, zero, suc, ◌-◌}
use Prim.Native.Char.{Char, code}
use Prim.Native.String
use Prim.Native.String.{String, [], ◌∷◌, char_at, find, len}
use mathlib.Core.Path.{◌≡◌, refl}
use mathlib.Core.Bool.{Bool, true, false, ◌&&◌, ◌||◌}
use mathlib.Core.Option.{Option, none, some}
use mathlib.Core.List.{List}
use text.Mathlib.Text.{◌==◌ as str_eq}
use text.Mathlib.TextEquality.{eq_iff}
use mathlib.Core.Logic.{◌≢◌, inl, inr}
use gocode.Base.Tests.{Bool-cases, leb, ◌==◌, if◌then◌else◌}

-- `format!`: the pieces one after the other.
abbrev pub format : List String → String
format List.[] = ""
format (List.◌∷◌ s ss) = String.◌++◌ s (format ss)

-- `[String]::join`.
abbrev pub join : String → List String → String
join sep List.[] = ""
join sep (List.◌∷◌ s List.[]) = s
join sep (List.◌∷◌ s (List.◌∷◌ t ts)) = String.◌++◌ s (String.◌++◌ sep (join sep (List.◌∷◌ t ts)))

-- `char::is_whitespace`.
unfoldable pub is_whitespace : Char → Bool
is_whitespace c =
    let n = code c in
    (leb 9 n && leb n 13)
    || n == 32
    || n == 133
    || n == 160
    || n == 5760
    || (leb 8192 n && leb n 8202)
    || n == 8232
    || n == 8233
    || n == 8239
    || n == 8287
    || n == 12288

-- `char::to_ascii_lowercase`.
unfoldable pub lower_char : Char → Char
lower_char c =
    if leb b'A' (code c) && leb (code c) b'Z'
    then char_at "abcdefghijklmnopqrstuvwxyz" (code c - b'A')
    else c

-- `str::to_ascii_lowercase`.
unfoldable pub to_ascii_lowercase : String → String
unfolding lower_char
to_ascii_lowercase [] = []
to_ascii_lowercase (c ∷ s) = lower_char c ∷ to_ascii_lowercase s

-- `str::trim_start`.
unfoldable pub trim_start : String → String
unfolding is_whitespace
trim_start [] = []
trim_start (c ∷ s) = let rest = trim_start s in if is_whitespace c then rest else c ∷ s

-- `str::trim_end`.
unfoldable pub trim_end : String → String
unfolding is_whitespace
trim_end [] = []
trim_end (c ∷ s) =
    let rest = trim_end s in if is_whitespace c && str_eq rest "" then "" else c ∷ rest

-- `str::trim`.
unfoldable pub trim : String → String
unfolding trim_start trim_end
trim s = trim_end (trim_start s)

-- `str::contains`.
abbrev pub contains : String → String → Bool
contains s t = leb (find s t) (len s)

-- `chars().take(n).collect()`.
unfoldable pub take_chars : ℕ → String → String
take_chars zero s = []
take_chars (suc n) [] = []
take_chars (suc n) (c ∷ s) = c ∷ take_chars n s

-- `str::strip_prefix`.
unfoldable pub strip_prefix : String → String → Option String
strip_prefix [] s = some s
strip_prefix (c ∷ p) [] = none
strip_prefix (c ∷ p) (d ∷ s) =
    let rest = strip_prefix p s in if code c == code d then rest else none

trims : trim "  a b\n" ≡ "a b"
unfolding trim
trims = refl

strips : strip_prefix "ab" "abc" ≡ some "c"
unfolding strip_prefix
strips = refl

-- `str_eq` decides.
pub differs_of : (a b : String) → str_eq a b ≡ false → a ≢ b
differs_of a b e same = cc (e, (eq_iff a b).1 same)

pub false_of : (a b : String) → a ≢ b → str_eq a b ≡ false
false_of a b differs = elim (Bool-cases (str_eq a b)) [
  | inl e ↦ absurd (differs ((eq_iff a b).0 e))
  | inr e ↦ e
]

abbrev pub extend : Bool → Char → List String → List String
extend true c parts = List.◌∷◌ "" parts
extend false c List.[] = List.◌∷◌ (c ∷ []) List.[]
extend false c (List.◌∷◌ part parts) = List.◌∷◌ (c ∷ part) parts

-- `str::split(char)`, for a separator given by its code.
unfoldable pub split_char : ℕ → String → List String
split_char sep [] = List.◌∷◌ "" List.[]
split_char sep (c ∷ s) = extend (code c == sep) c (split_char sep s)

splits : split_char b',' ",a,," ≡ List.◌∷◌ "" (List.◌∷◌ "a" (List.◌∷◌ "" (List.◌∷◌ "" List.[])))
unfolding split_char
splits = refl

-- A line without its final carriage return.
strip_cr : String → String
strip_cr [] = []
strip_cr (c ∷ s) = let rest = strip_cr s in if code c == 13 && str_eq s "" then "" else c ∷ rest

strip_lines : List String → List String
strip_lines List.[] = List.[]
strip_lines (List.◌∷◌ s List.[]) = if str_eq s "" then List.[] else List.◌∷◌ s List.[]
strip_lines (List.◌∷◌ s (List.◌∷◌ t ts)) = List.◌∷◌ (strip_cr s) (strip_lines (List.◌∷◌ t ts))

-- `str::lines`: split at line feeds, a final empty line dropped, a `\r` before a line feed dropped.
unfoldable pub text_lines : String → List String
unfolding strip_cr strip_lines split_char
text_lines s = strip_lines (split_char 10 s)

lines_test : text_lines "a\r\nb\n" ≡ List.◌∷◌ "a" (List.◌∷◌ "b" List.[])
unfolding text_lines
lines_test = refl
