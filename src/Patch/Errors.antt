-- ===== src/Patch/Errors.antt =====
-- How `parse_patch` of crates/gocode-tools/src/patch.rs fails.
use gocode.Base.{
  ℕ, zero, suc, ◌≤◌, ◌≡◌, refl, Bool, true, false, Option, none, some, List, [], ◌∷◌, String,
  str_eq, arith, strip_prefix, trim, length, is_empty, any, is_some, Result, ok, err, if_holds,
  text_lines,
}
use gocode.Contract.{ToolError, invalid_arguments}
use gocode.Patch.{Hunk, FileOperation, hunk_marker, begin_marker, update, add, delete}
use gocode.Patch.Parse.{
  is_section_marker, HunkState, parse_hunks, parse_add_body, before_end, parse_operations,
  Operations, Parsed, with_rest, resumed, updated, prepend, some_operations, parse_body,
  parse_lines, parse_patch, flush, close_hunks, extended, hunk_line, new_state, no_old_lines,
  LineKind, line_kind, round, update_line, add_line, delete_line, blank, unrecognized,
}
use gocode.Patch.Rest.{LeavesIfOk, parse_hunks-Leaves, parse_add_body-Leaves}

abbrev pub is_invalid_arguments : ToolError → Bool
is_invalid_arguments (invalid_arguments _) = true
is_invalid_arguments _ = false

-- A result that is an error only for the arguments.
abbrev pub FailsForArguments {ℓ} : {A : Type ℓ} → Result ToolError A → Type 0
FailsForArguments (ok _) = Unit {0}
FailsForArguments (err e) = is_invalid_arguments e ≡ true

close_hunks-FailsForArguments : (s : HunkState) → FailsForArguments (close_hunks s)
unfolding close_hunks
close_hunks-FailsForArguments s =
    let hunks = (flush s).hunks in
    if_holds FailsForArguments (is_empty hunks) (λ _. refl)
      (λ _. if_holds FailsForArguments (any no_old_lines hunks) (λ _. refl) (λ _. tt))

with_rest-FailsForArguments {ℓ} :
    {A : Type ℓ} (rest : List String) (o : Result ToolError A)
    → FailsForArguments o
    → FailsForArguments (with_rest rest o)
with_rest-FailsForArguments rest (ok a) h = tt
with_rest-FailsForArguments rest (err e) h = h

resumed-FailsForArguments :
    (later : HunkState → Parsed (List Hunk)) (line : String) (s : HunkState) (o : Option Hunk)
    → ((s : HunkState) → FailsForArguments (later s))
    → FailsForArguments (resumed later line s o)
resumed-FailsForArguments later line s none h = refl
resumed-FailsForArguments later line s (some hunk) h = h _

parse_hunks-FailsForArguments :
    (lines : List String) (s : HunkState) → FailsForArguments (parse_hunks lines s)
unfolding parse_hunks
parse_hunks-FailsForArguments [] s =
    with_rest-FailsForArguments [] (close_hunks s) (close_hunks-FailsForArguments s)
parse_hunks-FailsForArguments (line ∷ lines) s =
    if_holds FailsForArguments (is_section_marker line)
      (λ _.
        with_rest-FailsForArguments (line ∷ lines) (close_hunks s)
          (close_hunks-FailsForArguments s))
      (λ _.
        if_holds FailsForArguments (is_some (strip_prefix hunk_marker line))
          (λ _. parse_hunks-FailsForArguments lines (flush s))
          (λ _.
            resumed-FailsForArguments (parse_hunks lines) line s
              (extended (hunk_line line) s.current) (parse_hunks-FailsForArguments lines)))

abbrev LaterFails : ℕ → (List String → Operations) → Type 0
LaterFails fuel later = (rest : List String) → length rest ≤ fuel → FailsForArguments (later rest)

prepend-FailsForArguments :
    (operation : FileOperation) (o : Operations)
    → FailsForArguments o
    → FailsForArguments (prepend operation o)
prepend-FailsForArguments operation (ok _) h = tt
prepend-FailsForArguments operation (err e) h = h

updated-FailsForArguments :
    (fuel : ℕ) (later : List String → Operations) (path : String) (lines : List String)
    (o : Parsed (List Hunk))
    → length lines ≤ fuel
    → LeavesIfOk lines o
    → FailsForArguments o
    → LaterFails fuel later
    → FailsForArguments (updated later path o)
updated-FailsForArguments fuel later path lines (ok (hunks, rest)) enough leaves fails h =
    prepend-FailsForArguments (update path hunks) (later rest)
      (h rest (omega (arith, leaves.size, enough)))
updated-FailsForArguments fuel later path lines (err e) enough leaves fails h = fails

round-FailsForArguments :
    (fuel : ℕ) (later : List String → Operations) (line : String) (lines : List String)
    (kind : LineKind)
    → length lines ≤ fuel
    → LaterFails fuel later
    → FailsForArguments (round later line lines kind)
round-FailsForArguments fuel later line lines (update_line path) enough h =
    updated-FailsForArguments fuel later path lines (parse_hunks lines new_state) enough
      (parse_hunks-Leaves lines new_state) (parse_hunks-FailsForArguments lines new_state) h
round-FailsForArguments fuel later line lines (add_line path) enough h =
    let (content, rest) = parse_add_body lines in
    prepend-FailsForArguments (add path content) (later rest)
      (h rest (omega (arith, (parse_add_body-Leaves lines).size, enough)))
round-FailsForArguments fuel later line lines (delete_line path) enough h =
    prepend-FailsForArguments (delete path) (later lines) (h lines enough)
round-FailsForArguments fuel later line lines blank enough h = h lines enough
round-FailsForArguments fuel later line lines unrecognized enough h = refl

-- The fuel does not run out.
parse_operations-FailsForArguments :
    (fuel : ℕ) (lines : List String)
    → length lines ≤ fuel
    → FailsForArguments (parse_operations fuel lines)
unfolding parse_operations
parse_operations-FailsForArguments fuel [] enough = tt
parse_operations-FailsForArguments zero (line ∷ lines) enough = absurd (omega (arith, enough))
parse_operations-FailsForArguments (suc fuel) (line ∷ lines) enough =
    round-FailsForArguments fuel (parse_operations fuel) line lines (line_kind line)
      (omega (arith, enough)) (parse_operations-FailsForArguments fuel)

some_operations-FailsForArguments :
    (o : Operations) → FailsForArguments o → FailsForArguments (some_operations o)
some_operations-FailsForArguments (ok []) h = refl
some_operations-FailsForArguments (ok (_ ∷ _)) h = tt
some_operations-FailsForArguments (err e) h = h

parse_body-FailsForArguments : (o : Option (List String)) → FailsForArguments (parse_body o)
parse_body-FailsForArguments none = refl
parse_body-FailsForArguments (some body) =
    some_operations-FailsForArguments (parse_operations (length body) body)
      (parse_operations-FailsForArguments (length body) body (omega arith))

parse_lines-FailsForArguments : (lines : List String) → FailsForArguments (parse_lines lines)
parse_lines-FailsForArguments [] = refl
parse_lines-FailsForArguments (first ∷ lines) =
    if_holds FailsForArguments (str_eq (trim first) begin_marker)
      (λ _. parse_body-FailsForArguments (before_end lines)) (λ _. refl)

-- Parsing a patch fails only for invalid arguments; in particular its loop always ends.
pub parse_patch-FailsForArguments : (patch : String) → FailsForArguments (parse_patch patch)
unfolding parse_patch
parse_patch-FailsForArguments patch = parse_lines-FailsForArguments (text_lines patch)
