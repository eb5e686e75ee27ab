-- ===== src/Patch/Content.antt =====
-- `split_content` and `join_content` of crates/gocode-tools/src/patch.rs.
use Prim.Native.Char.{code}
use Prim.Native.String
use gocode.Base.{
  ◌≡◌, refl, Bool, true, false, ◌&&◌, ◌||◌, not, List, [], ◌∷◌, String, str_eq, split_char, join,
  ◌==◌, if◌then◌else◌, is_empty,
}

-- Whether a text starts with a line feed.
unfoldable pub starts_line : String → Bool
starts_line String.[] = false
starts_line (String.◌∷◌ c s) = code c == 10

-- `contains("\r\n")`.
unfoldable pub has_crlf : String → Bool
unfolding starts_line
has_crlf String.[] = false
has_crlf (String.◌∷◌ c s) = (code c == 13 && starts_line s) || has_crlf s

-- `replace("\r\n", "\n")`.
unfoldable pub replace_crlf : String → String
unfolding starts_line
replace_crlf String.[] = String.[]
replace_crlf (String.◌∷◌ c s) =
    let rest = replace_crlf s in if code c == 13 && starts_line s then rest else String.◌∷◌ c rest

-- `ends_with('\n')`.
unfoldable pub ends_line : String → Bool
ends_line String.[] = false
ends_line (String.◌∷◌ c s) = let rest = ends_line s in if str_eq s "" then code c == 10 else rest

-- `strip_suffix('\n')`, or the text itself.
unfoldable pub without_end : String → String
without_end String.[] = String.[]
without_end (String.◌∷◌ c s) =
    let rest = without_end s in if code c == 10 && str_eq s "" then String.[] else String.◌∷◌ c rest

pub record SplitContent : Type 0 where
  pub lines : List String
  pub ending : String
  pub trailing_newline : Bool

unfoldable pub split_content : String → SplitContent
split_content content =
    let normalized = replace_crlf content in
    let trailing = ends_line normalized in
    let trimmed = without_end normalized in
    record {
      lines = if str_eq trimmed "" && not trailing then [] else split_char 10 trimmed;
      ending = if has_crlf content then "\r\n" else "\n";
      trailing_newline = trailing;
    }

unfoldable pub join_content : List String → String → Bool → String
join_content lines ending trailing =
    let joined = join ending lines in
    if trailing && not (is_empty lines) then String.◌++◌ joined ending else joined

split_test :
    split_content "a\r\nb\r\n"
    ≡ record { lines = "a" ∷ "b" ∷ []; ending = "\r\n"; trailing_newline = true }
unfolding split_content has_crlf replace_crlf ends_line without_end split_char
split_test = refl
