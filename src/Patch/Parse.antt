-- ===== src/Patch/Parse.antt =====
-- `parse_patch`, `parse_hunks` and `parse_add_body` of crates/gocode-tools/src/patch.rs. An index into
-- the body is the list of the lines from it on.
use Prim.Native.Char.{code}
use gocode.Base.{
  ℕ, zero, suc, ◌≡◌, refl, Bool, true, false, ◌||◌, Option, none, some, List, [], ◌∷◌, ◌++◌, String,
  str_eq, text_lines, strip_prefix, trim, format, ◌==◌, is_empty, any, length, if◌then◌else◌,
  is_some, Result, ok, err,
}
use gocode.Contract.{ToolError, invalid_arguments}
use gocode.Patch.{
  Hunk, FileOperation, update, add, delete, begin_marker, end_marker, update_prefix, add_prefix,
  delete_prefix, hunk_marker,
}

unfoldable pub is_section_marker : String → Bool
is_section_marker line =
    is_some (strip_prefix update_prefix line)
    || is_some (strip_prefix add_prefix line)
    || is_some (strip_prefix delete_prefix line)

-- What a line of a hunk is: its first character, and the rest.
pub data HunkLine : Type 0 where
  context removed added : String → HunkLine
  malformed : HunkLine

unfoldable pub hunk_line : String → HunkLine
hunk_line String.[] = context ""
hunk_line (String.◌∷◌ c rest) =
    if code c == b' '
    then context rest
    else if code c == b'-'
    then removed rest
    else if code c == b'+'
    then added rest
    else malformed

abbrev pub empty_hunk : Hunk
empty_hunk = record { old_lines = []; new_lines = [] }

-- The hunk with one more line; none for a malformed one.
unfoldable pub extended : HunkLine → Hunk → Option Hunk
extended (context text) hunk =
    some
      (record { old_lines = hunk.old_lines ++ text ∷ []; new_lines = hunk.new_lines ++ text ∷ [] })
extended (removed text) hunk = some (record hunk { old_lines = hunk.old_lines ++ text ∷ [] })
extended (added text) hunk = some (record hunk { new_lines = hunk.new_lines ++ text ∷ [] })
extended malformed hunk = none

-- The hunks that are complete, the one that is being read, and whether it has any line.
pub record HunkState : Type 0 where
  pub hunks : List Hunk
  pub current : Hunk
  pub has_content : Bool

abbrev pub new_state : HunkState
new_state = record { hunks = []; current = empty_hunk; has_content = false }

unfoldable pub flush : HunkState → HunkState
flush s =
    if s.has_content
    then record { hunks = s.hunks ++ s.current ∷ []; current = empty_hunk; has_content = false }
    else s

abbrev pub malformed_line : String → ToolError
malformed_line line =
    invalid_arguments
      (format ("patch hunk line must start with ' ', '-', or '+': `" ∷ line ∷ "`" ∷ []))

abbrev pub no_old_lines : Hunk → Bool
no_old_lines hunk = is_empty hunk.old_lines

-- What follows the loop of `parse_hunks`.
unfoldable pub close_hunks : HunkState → Result ToolError (List Hunk)
unfolding flush
close_hunks s =
    let hunks = (flush s).hunks in
    if is_empty hunks
    then err (invalid_arguments "update section has no hunk content")
    else if any no_old_lines hunks
    then err (
        invalid_arguments
          "each hunk needs at least one context or removed line to locate its position")
    else ok hunks

abbrev pub Parsed {ℓ} : Type ℓ → Type ℓ
Parsed A = Result ToolError (A × List String)

abbrev pub with_rest {ℓ} : {A : Type ℓ} → List String → Result ToolError A → Parsed A
with_rest rest (ok a) = ok (a, rest)
with_rest rest (err e) = err e

abbrev pub resumed :
    (HunkState → Parsed (List Hunk)) → String → HunkState → Option Hunk → Parsed (List Hunk)
resumed later line s none = err (malformed_line line)
resumed later line s (some hunk) = later (record s { current = hunk; has_content = true })

-- `parse_hunks`: the hunks of a section, and the lines after it.
unfoldable pub parse_hunks : List String → HunkState → Parsed (List Hunk)
parse_hunks [] s = with_rest [] (close_hunks s)
parse_hunks (line ∷ lines) s =
    let marked = parse_hunks lines (flush s) in
    let read = resumed (parse_hunks lines) line s (extended (hunk_line line) s.current) in
    if is_section_marker line
    then with_rest (line ∷ lines) (close_hunks s)
    else if is_some (strip_prefix hunk_marker line)
    then marked
    else read

abbrev without_plus : String → String
without_plus String.[] = String.[]
without_plus (String.◌∷◌ c rest) = if code c == b'+' then rest else String.◌∷◌ c rest

-- `parse_add_body`.
unfoldable pub parse_add_body : List String → List String × List String
parse_add_body [] = ([], [])
parse_add_body (line ∷ lines) =
    let (content, rest) = parse_add_body lines in
    if is_section_marker line then ([], line ∷ lines) else (without_plus line ∷ content, rest)

abbrev pub prepended : String → Option (List String) → Option (List String)
prepended line none = none
prepended line (some lines) = some (line ∷ lines)

-- The lines before the end marker; none without one.
unfoldable pub before_end : List String → Option (List String)
before_end [] = none
before_end (line ∷ lines) =
    let later = prepended line (before_end lines) in
    if str_eq (trim line) end_marker then some [] else later

abbrev pub Operations : Type 0
Operations = Result ToolError (List FileOperation)

abbrev pub prepend : FileOperation → Operations → Operations
prepend operation (ok operations) = ok (operation ∷ operations)
prepend operation (err e) = err e

abbrev pub updated : (List String → Operations) → String → Parsed (List Hunk) → Operations
updated later path (ok (hunks, rest)) = prepend (update path hunks) (later rest)
updated later path (err e) = err e

-- What a line between two sections is.
pub data LineKind : Type 0 where
  update_line add_line delete_line : String → LineKind
  blank unrecognized : LineKind

abbrev pub kind_of : Option String → Option String → Option String → Bool → LineKind
kind_of (some path) _ _ _ = update_line (trim path)
kind_of none (some path) _ _ = add_line (trim path)
kind_of none none (some path) _ = delete_line (trim path)
kind_of none none none true = blank
kind_of none none none false = unrecognized

unfoldable pub line_kind : String → LineKind
line_kind line =
    kind_of (strip_prefix update_prefix line) (strip_prefix add_prefix line)
      (strip_prefix delete_prefix line) (str_eq (trim line) "")

abbrev pub added_operation :
    (List String → Operations) → String → List String × List String → Operations
added_operation later path (content, rest) = prepend (add path content) (later rest)

-- A round of the loop, by the kind of its line.
abbrev pub round : (List String → Operations) → String → List String → LineKind → Operations
round later line lines (update_line path) = updated later path (parse_hunks lines new_state)
round later line lines (add_line path) = added_operation later path (parse_add_body lines)
round later line lines (delete_line path) = prepend (delete path) (later lines)
round later line lines blank = later lines
round later line lines unrecognized =
    err (invalid_arguments (format ("unrecognized patch line: `" ∷ line ∷ "`" ∷ [])))

-- The loop of `parse_patch` over the body. Each round takes a line, so that as much fuel as there
-- are lines is enough, as is proved in Patch/Sections.
unfoldable pub parse_operations : ℕ → List String → Operations
parse_operations fuel [] = ok []
parse_operations zero (line ∷ lines) = err (ToolError.internal "out of fuel")
parse_operations (suc fuel) (line ∷ lines) =
    round (parse_operations fuel) line lines (line_kind line)

abbrev pub some_operations : Operations → Operations
some_operations (ok []) = err (invalid_arguments "patch contains no file operations")
some_operations operations = operations

abbrev pub parse_body : Option (List String) → Operations
parse_body none = err (invalid_arguments (format ("patch must end with `" ∷ end_marker ∷ "`" ∷ [])))
parse_body (some body) = some_operations (parse_operations (length body) body)

abbrev pub parse_lines : List String → Operations
parse_lines [] = err (invalid_arguments "patch is empty")
parse_lines (first ∷ lines) =
    if str_eq (trim first) begin_marker
    then parse_body (before_end lines)
    else err (invalid_arguments (format ("patch must start with `" ∷ begin_marker ∷ "`" ∷ [])))

unfoldable pub parse_patch : String → Operations
parse_patch patch = parse_lines (text_lines patch)

parsed_test :
    parse_patch
      "*** Begin Patch\n*** Update File: a.rs\n x\n-y\n+z\n@@\n w\n\n*** Add File: b\n+1\n*** Delete File: c\n*** End Patch"
    ≡ ok (
        update "a.rs" (
          record { old_lines = "x" ∷ "y" ∷ []; new_lines = "x" ∷ "z" ∷ [] }
          ∷ record { old_lines = "w" ∷ "" ∷ []; new_lines = "w" ∷ "" ∷ [] }
          ∷ [])
        ∷ add "b" ("1" ∷ [])
        ∷ delete "c"
        ∷ [])
unfolding parse_patch parse_operations line_kind parse_hunks parse_add_body before_end close_hunks
    flush extended hunk_line is_section_marker text_lines trim strip_prefix
parsed_test = refl
