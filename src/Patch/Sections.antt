-- ===== src/Patch/Sections.antt =====
-- The operations of a patch are the sections that `touched_paths` finds: parsing ends, and no section
-- is lost or made up. The code is in crates/gocode-tools/src/patch.rs.
use gocode.Base.{
  ℕ, zero, suc, ◌≤◌, ◌≡◌, refl, sym, ap, subst, ◌∙◌, Bool, true, false, Option, none, some, List,
  [], ◌∷◌, ◌++◌, map, String, str_eq, arith, text_lines, trim, length, ok, err, if_holds,
}
use gocode.Patch.{
  Hunk, FileOperation, update, add, delete, begin_marker, end_marker, section_path, touched,
  touched_lines, touched_paths, or_else,
}
use gocode.Patch.Parse.{
  parse_hunks, parse_add_body, before_end, prepended, parse_operations, Operations, Parsed, updated,
  prepend, some_operations, parse_body, parse_lines, parse_patch, new_state, LineKind, kind_of,
  line_kind, round, update_line, add_line, delete_line, blank, unrecognized,
}
use gocode.Patch.Rest.{Leaves, LeavesIfOk, Leaves-refl, parse_hunks-Leaves, parse_add_body-Leaves}

abbrev pub operation_path : FileOperation → String
operation_path (update path _) = path
operation_path (add path _) = path
operation_path (delete path) = path

-- Operations with these paths, if the lines parse.
abbrev pub HavePaths : List String → Operations → Type 0
HavePaths paths (ok operations) = map operation_path operations ≡ paths
HavePaths paths (err _) = Unit {0}

prepend-HavePaths :
    (operation : FileOperation) (paths : List String) (o : Operations)
    → HavePaths paths o
    → HavePaths (operation_path operation ∷ paths) (prepend operation o)
prepend-HavePaths operation paths (ok operations) h = ap (λ l. operation_path operation ∷ l) h
prepend-HavePaths operation paths (err e) h = tt

-- The path of a line between two sections comes first.
abbrev named : LineKind → List String → List String
named (update_line path) paths = path ∷ paths
named (add_line path) paths = path ∷ paths
named (delete_line path) paths = path ∷ paths
named _ paths = paths

named-kind_of :
    (line : String) (a b c : Option String) (empty : Bool) (paths : List String)
    → touched line (or_else a (or_else b c)) paths ≡ named (kind_of a b c empty) paths
named-kind_of line (some path) b c empty paths = refl
named-kind_of line none (some path) c empty paths = refl
named-kind_of line none none (some path) empty paths = refl
named-kind_of line none none none true paths = refl
named-kind_of line none none none false paths = refl

-- What the rest of the loop gives on fewer lines.
abbrev LaterHavePaths : ℕ → (List String → Operations) → Type 0
LaterHavePaths fuel later =
    (rest : List String) → length rest ≤ fuel → HavePaths (touched_lines rest) (later rest)

prepended-HavePaths :
    (fuel : ℕ) (operation : FileOperation) (later : List String → Operations)
    (lines rest : List String)
    → length lines ≤ fuel
    → Leaves lines rest
    → LaterHavePaths fuel later
    → HavePaths (operation_path operation ∷ touched_lines lines) (prepend operation (later rest))
prepended-HavePaths fuel operation later lines rest enough leaves h =
    subst (λ paths. HavePaths (operation_path operation ∷ paths) (prepend operation (later rest)))
      (sym leaves.sections)
      (prepend-HavePaths operation _ (later rest) (h rest (omega (arith, leaves.size, enough))))

updated-HavePaths :
    (fuel : ℕ) (later : List String → Operations) (path : String) (lines : List String)
    (o : Parsed (List Hunk))
    → length lines ≤ fuel
    → LeavesIfOk lines o
    → LaterHavePaths fuel later
    → HavePaths (path ∷ touched_lines lines) (updated later path o)
updated-HavePaths fuel later path lines (ok (hunks, rest)) enough leaves h =
    prepended-HavePaths fuel (update path hunks) later lines rest enough leaves h
updated-HavePaths fuel later path lines (err e) enough leaves h = tt

round-HavePaths :
    (fuel : ℕ) (later : List String → Operations) (line : String) (lines : List String)
    (kind : LineKind)
    → length lines ≤ fuel
    → LaterHavePaths fuel later
    → HavePaths (named kind (touched_lines lines)) (round later line lines kind)
round-HavePaths fuel later line lines (update_line path) enough h =
    updated-HavePaths fuel later path lines (parse_hunks lines new_state) enough
      (parse_hunks-Leaves lines new_state) h
round-HavePaths fuel later line lines (add_line path) enough h =
    let (content, rest) = parse_add_body lines in
    prepended-HavePaths fuel (add path content) later lines rest enough
      (parse_add_body-Leaves lines) h
round-HavePaths fuel later line lines (delete_line path) enough h =
    prepended-HavePaths fuel (delete path) later lines lines enough (Leaves-refl lines) h
round-HavePaths fuel later line lines blank enough h = h lines enough
round-HavePaths fuel later line lines unrecognized enough h = tt

parse_operations-HavePaths :
    (fuel : ℕ) (lines : List String)
    → length lines ≤ fuel
    → HavePaths (touched_lines lines) (parse_operations fuel lines)
unfolding parse_operations touched_lines section_path line_kind
parse_operations-HavePaths fuel [] enough = refl
parse_operations-HavePaths zero (line ∷ lines) enough = tt
parse_operations-HavePaths (suc fuel) (line ∷ lines) enough =
    subst (λ paths. HavePaths paths (parse_operations (suc fuel) (line ∷ lines)))
      (sym (named-kind_of line _ _ _ (str_eq (trim line) "") (touched_lines lines)))
      (round-HavePaths fuel (parse_operations fuel) line lines (line_kind line)
        (omega (arith, enough)) (parse_operations-HavePaths fuel))

-- The body of a patch is where its lines begin.
abbrev Begins : List String → Option (List String) → Type 0
Begins lines none = Unit {0}
Begins lines (some body) = (after : List String) × (lines ≡ body ++ after)

prepended-Begins :
    (line : String) (lines : List String) (o : Option (List String))
    → Begins lines o
    → Begins (line ∷ lines) (prepended line o)
prepended-Begins line lines none h = tt
prepended-Begins line lines (some body) (after, e) = (after, ap (λ l. line ∷ l) e)

before_end-Begins : (lines : List String) → Begins lines (before_end lines)
unfolding before_end
before_end-Begins [] = tt
before_end-Begins (line ∷ lines) =
    if_holds (Begins (line ∷ lines)) (str_eq (trim line) end_marker) (λ _. (line ∷ lines, refl))
      (λ _. prepended-Begins line lines (before_end lines) (before_end-Begins lines))

touched-append :
    (line : String) (o : Option String) (a b : List String)
    → touched line o (a ++ b) ≡ touched line o a ++ b
touched-append line none a b = refl
touched-append line (some path) a b = refl

touched_lines-append :
    (a b : List String) → touched_lines (a ++ b) ≡ touched_lines a ++ touched_lines b
unfolding touched_lines
touched_lines-append [] b = refl
touched_lines-append (line ∷ a) b =
    ap (touched line (section_path line)) (touched_lines-append a b)
    ∙ touched-append line (section_path line) (touched_lines a) (touched_lines b)

-- The paths of the operations, among those of all the lines.
abbrev Among : List String → Operations → Type 0
Among paths (err _) = Unit {0}
Among paths (ok operations) =
    (before : List String) × (after : List String) × (paths
      ≡ before ++ (map operation_path operations ++ after))

some_operations-Among :
    (paths : List String) (o : Operations) → Among paths o → Among paths (some_operations o)
some_operations-Among paths (ok []) h = tt
some_operations-Among paths (ok (_ ∷ _)) h = h
some_operations-Among paths (err e) h = tt

HavePaths-Among :
    (first : String) (lines body after : List String) (o : Operations)
    → lines ≡ body ++ after
    → HavePaths (touched_lines body) o
    → Among (touched_lines (first ∷ lines)) o
unfolding touched_lines
HavePaths-Among first lines body after (err e) split h = tt
HavePaths-Among first lines body after (ok operations) split h = (
  touched first (section_path first) [],
  touched_lines after,
  touched-append first (section_path first) [] (touched_lines lines)
      ∙ ap (λ l. touched first (section_path first) [] ++ l)
          (ap touched_lines split
            ∙ touched_lines-append body after
            ∙ ap (λ l. l ++ touched_lines after) (sym h)),
)

parse_body-Among :
    (first : String) (lines : List String) (o : Option (List String))
    → Begins lines o
    → Among (touched_lines (first ∷ lines)) (parse_body o)
parse_body-Among first lines none h = tt
parse_body-Among first lines (some body) (after, e) =
    some_operations-Among (touched_lines (first ∷ lines)) (parse_operations (length body) body) (
      HavePaths-Among first lines body after _ e
        (parse_operations-HavePaths (length body) body (omega arith)))

parse_lines-Among : (lines : List String) → Among (touched_lines lines) (parse_lines lines)
parse_lines-Among [] = tt
parse_lines-Among (first ∷ lines) =
    if_holds (Among (touched_lines (first ∷ lines))) (str_eq (trim first) begin_marker)
      (λ _. parse_body-Among first lines (before_end lines) (before_end-Begins lines)) (λ _. tt)

-- The paths of the operations of a patch that parses stand in the same order, one after the other,
-- among the paths that `touched_paths` finds before the parsing, which may have others before and after
-- them: none of the files of the operations escapes a snapshot.
pub parse_patch-paths :
    (patch : String) (operations : List FileOperation)
    → parse_patch patch ≡ ok operations
    → (before : List String) × (after : List String) × (touched_paths patch
        ≡ before ++ (map operation_path operations ++ after))
unfolding parse_patch touched_paths
parse_patch-paths patch operations h =
    subst (Among (touched_lines (text_lines patch))) h (parse_lines-Among (text_lines patch))
