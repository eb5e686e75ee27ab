-- ===== src/Patch/Rest.antt =====
-- What a section of a patch takes from its lines, in `parse_hunks` and `parse_add_body` of
-- crates/gocode-tools/src/patch.rs.
use gocode.Base.{
  ◌≤◌, ◌≡◌, refl, ap, ◌∙◌, false, Option, none, some, List, [], ◌∷◌, String, arith, strip_prefix,
  length, is_some, Result, ok, err, if_holds,
}
use gocode.Contract.{ToolError}
use gocode.Patch.{Hunk, hunk_marker, section_path, touched, touched_lines}
use gocode.Patch.Parse.{
  is_section_marker, HunkState, parse_hunks, parse_add_body, Parsed, with_rest, resumed, flush,
  close_hunks, extended, hunk_line,
}

no_section : (line : String) → is_section_marker line ≡ false → section_path line ≡ none
unfolding is_section_marker section_path
no_section line h = ground arith

-- What a section leaves has the same later sections as what it started from.
pub record Leaves (lines rest : List String) : Type 0 where
  pub sections : touched_lines lines ≡ touched_lines rest
  pub size : length rest ≤ length lines

pub Leaves-refl : (lines : List String) → Leaves lines lines
Leaves-refl lines = record { sections = refl; size = omega arith }

Leaves-cons :
    (line : String) (lines rest : List String)
    → is_section_marker line ≡ false
    → Leaves lines rest
    → Leaves (line ∷ lines) rest
unfolding touched_lines
Leaves-cons line lines rest h leaves = record {
  sections = ap (λ o. touched line o (touched_lines lines)) (no_section line h) ∙ leaves.sections;
  size = omega (arith, leaves.size);
}

abbrev pub LeavesIfOk {ℓ} : {A : Type ℓ} → List String → Parsed A → Type 0
LeavesIfOk lines (ok (_, rest)) = Leaves lines rest
LeavesIfOk lines (err _) = Unit {0}

with_rest-Leaves {ℓ} :
    {A : Type ℓ} (lines : List String) (o : Result ToolError A)
    → LeavesIfOk lines (with_rest lines o)
with_rest-Leaves lines (ok a) = Leaves-refl lines
with_rest-Leaves lines (err e) = tt

parsed-cons {ℓ} :
    {A : Type ℓ} (line : String) (lines : List String) (o : Parsed A)
    → is_section_marker line ≡ false
    → LeavesIfOk lines o
    → LeavesIfOk (line ∷ lines) o
parsed-cons line lines (ok (a, rest)) h leaves = Leaves-cons line lines rest h leaves
parsed-cons line lines (err e) h leaves = tt

resumed-Leaves :
    (lines : List String) (line : String) (later : HunkState → Parsed (List Hunk)) (s : HunkState)
    (o : Option Hunk)
    → ((s : HunkState) → LeavesIfOk lines (later s))
    → LeavesIfOk lines (resumed later line s o)
resumed-Leaves lines line later s none h = tt
resumed-Leaves lines line later s (some hunk) h = h _

pub parse_hunks-Leaves :
    (lines : List String) (s : HunkState) → LeavesIfOk lines (parse_hunks lines s)
unfolding parse_hunks
parse_hunks-Leaves [] s = with_rest-Leaves [] (close_hunks s)
parse_hunks-Leaves (line ∷ lines) s =
    if_holds (LeavesIfOk (line ∷ lines)) (is_section_marker line)
      (λ _. with_rest-Leaves (line ∷ lines) (close_hunks s))
      (λ no.
        if_holds (LeavesIfOk (line ∷ lines)) (is_some (strip_prefix hunk_marker line))
          (λ _. parsed-cons line lines _ no (parse_hunks-Leaves lines (flush s)))
          (λ _. parsed-cons line lines _ no (
            resumed-Leaves lines line (parse_hunks lines) s (extended (hunk_line line) s.current)
              (parse_hunks-Leaves lines))))

pub parse_add_body-Leaves : (lines : List String) → Leaves lines (parse_add_body lines).1
unfolding parse_add_body
parse_add_body-Leaves [] = Leaves-refl []
parse_add_body-Leaves (line ∷ lines) =
    if_holds (λ (o : List String × List String). Leaves (line ∷ lines) o.1) (is_section_marker line)
      (λ _. Leaves-refl (line ∷ lines))
      (λ no. Leaves-cons line lines _ no (parse_add_body-Leaves lines))
