-- ===== src/Patch/Hunks.antt =====
-- Where the hunks of an update go, and what they do to the lines: `find_all_subsequences`,
-- `locate_hunk` and `apply_hunks` of crates/gocode-tools/src/patch.rs.
use gocode.Base.{
  ℕ, zero, suc, ◌+◌, ◌-◌, Bool, true, false, ◌||◌, Option, none, some, List, [], ◌∷◌, ◌++◌, String,
  str_eq, strip_prefix, trim_end, format, length, take, drop, is_empty, ltb, if◌then◌else◌, Result,
  ok, err,
}
use gocode.Contract.{ToolError, invalid_arguments}
use gocode.Patch.{Hunk}
use gocode.Patch.Content.{SplitContent, split_content, join_content}
use Prim.Native.String

-- Lines that agree one by one with the first lines of a list.
unfoldable pub matches_at : (String → String → Bool) → List String → List String → Bool
matches_at same [] lines = true
matches_at same (old ∷ olds) [] = false
matches_at same (old ∷ olds) (line ∷ lines) =
    let rest = matches_at same olds lines in if same line old then rest else false

abbrev pub same_trimmed : String → String → Bool
same_trimmed line old = str_eq (trim_end line) (trim_end old)

-- The positions in the lines from `position` on, `count` of them, where the lines agree.
unfoldable pub positions : (String → String → Bool) → List String → List String → ℕ → ℕ → List ℕ
positions same haystack needle position zero = []
positions same haystack needle position (suc n) =
    let rest = positions same haystack needle (suc position) n in
    if matches_at same needle (drop position haystack) then position ∷ rest else rest

-- `find_all_subsequences`, and `find_all_subsequences_fuzzy`, by their test of two lines.
unfoldable pub find_all_by : (String → String → Bool) → List String → List String → ℕ → List ℕ
find_all_by same haystack needle from =
    if is_empty needle || ltb (length haystack) (length needle)
    then []
    else positions same haystack needle from (suc (length haystack - length needle) - from)

unfoldable pub find_all_subsequences : List String → List String → ℕ → List ℕ
unfolding find_all_by
find_all_subsequences haystack needle from = find_all_by str_eq haystack needle from

unfoldable pub find_all_subsequences_fuzzy : List String → List String → ℕ → List ℕ
unfolding find_all_by
find_all_subsequences_fuzzy haystack needle from = find_all_by same_trimmed haystack needle from

pub data MatchKind : Type 0 where
  exact fuzzy_trailing_whitespace : MatchKind

abbrev pub Located : Type 0
Located = Result ToolError (ℕ × MatchKind)

-- `Vec::splice` with a range that lies in the list.
abbrev pub splice : List String → ℕ → ℕ → List String → List String
splice lines position removed inserted =
    take position lines ++ (inserted ++ drop (position + removed) lines)

abbrev pub fuzzy_count : MatchKind → ℕ
fuzzy_count exact = 0
fuzzy_count fuzzy_trailing_whitespace = 1

abbrev pub Spliced : Type 0
Spliced = Result ToolError (List String × ℕ)

-- The lines with a hunk applied, and the cursor after it.
abbrev pub edited : List String → Hunk → ℕ → List String
edited lines hunk position = splice lines position (length hunk.old_lines) hunk.new_lines

abbrev bom : String
bom = "\u{feff}"

-- Whether a text begins with the mark, and what follows it.
abbrev split_bom : String → Option String → Bool × String
split_bom original none = (false, original)
split_bom original (some rest) = (true, rest)

abbrev joined : Bool → SplitContent → Spliced → Result ToolError (String × ℕ)
joined had_bom split (err e) = err e
joined had_bom split (ok (lines, fuzzy)) =
    let text = join_content lines split.ending split.trailing_newline in
    ok (if had_bom then String.◌++◌ bom text else text, fuzzy)

-- `decimal` writes a count in the messages.
module _ (decimal : ℕ → String) where
  abbrev ambiguous : String → ℕ → ToolError
  ambiguous display_path n = invalid_arguments (
      format (
        "patch context in `"
        ∷ display_path
        ∷ "` matches "
        ∷ decimal n
        ∷ " locations in the file; add more surrounding context lines to the hunk so it identifies a unique location"
        ∷ []))

  abbrev ambiguous_trimmed : String → ℕ → ToolError
  ambiguous_trimmed display_path n = invalid_arguments (
      format (
        "patch context in `"
        ∷ display_path
        ∷ "` matches "
        ∷ decimal n
        ∷ " locations after ignoring trailing whitespace; add more surrounding context lines to the hunk so it identifies a unique location"
        ∷ []))

  abbrev missing : String → ToolError
  missing display_path = invalid_arguments (
      format (
        "patch could not be applied because the expected context in `" ∷ display_path
        ∷ "` no longer matches the file; read the file again and generate a new patch" ∷ []))

  abbrev pub located_fuzzy : String → List ℕ → Located
  located_fuzzy display_path [] = err (missing display_path)
  located_fuzzy display_path (p ∷ []) = ok (p, fuzzy_trailing_whitespace)
  located_fuzzy display_path (p ∷ q ∷ ps) =
      err (ambiguous_trimmed display_path (length (p ∷ q ∷ ps)))

  abbrev pub located : String → List ℕ → List ℕ → Located
  located display_path (p ∷ []) found = ok (p, exact)
  located display_path (p ∷ q ∷ ps) found = err (ambiguous display_path (length (p ∷ q ∷ ps)))
  located display_path [] found = located_fuzzy display_path found

  unfoldable pub locate_hunk : List String → Hunk → ℕ → String → Located
  locate_hunk lines hunk cursor display_path =
      located display_path (find_all_subsequences lines hunk.old_lines cursor)
        (find_all_subsequences_fuzzy lines hunk.old_lines cursor)

  abbrev pub then_splice :
      (List String → ℕ → ℕ → Spliced) → List String → Hunk → ℕ → Located → Spliced
  then_splice later lines hunk fuzzy (err e) = err e
  then_splice later lines hunk fuzzy (ok (position, kind)) =
      later (edited lines hunk position) (position + length hunk.new_lines)
        (fuzzy + fuzzy_count kind)

  -- The loop of `apply_hunks`: the lines, and how many matches were fuzzy.
  unfoldable pub splice_hunks : String → List Hunk → List String → ℕ → ℕ → Spliced
  splice_hunks display_path [] lines cursor fuzzy = ok (lines, fuzzy)
  splice_hunks display_path (hunk ∷ hunks) lines cursor fuzzy =
      then_splice (splice_hunks display_path hunks) lines hunk fuzzy
        (locate_hunk lines hunk cursor display_path)

  unfoldable pub apply_hunks : String → List Hunk → String → Result ToolError (String × ℕ)
  apply_hunks original hunks display_path =
      let (had_bom, body) = split_bom original (strip_prefix bom original) in
      let split = split_content body in
      joined had_bom split (splice_hunks display_path hunks split.lines 0 0)
