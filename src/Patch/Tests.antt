-- ===== src/Patch/Tests.antt =====
-- Concrete patches and files.
use gocode.Base.{
  ℕ, ◌≡◌, refl, inl, inr, Bool, true, false, none, some, List, [], ◌∷◌, ◌++◌, String, ok, map,
  is_empty,
}
use gocode.Patch.{Hunk, FileOperation, update, add, delete, touched_paths}
use gocode.Patch.Parse.{parse_patch}
use gocode.Patch.Sections.{parse_patch-paths}
use gocode.Patch.Errors.{FailsForArguments, parse_patch-FailsForArguments}
use gocode.Patch.Content.{split_content, join_content, has_crlf}
use gocode.Patch.Endings.{crlf_only, join-split_content}
use gocode.Patch.Hunks.{locate_hunk, splice_hunks, apply_hunks}
use gocode.Patch.Location.{LocatedWell, locate_hunk-IsLocation}
use gocode.Patch.Splice.{Edits, splice_hunks-Edits}
use gocode.Patch.Apply.{apply_operation}
use gocode.Patch.Effects.{Effect, apply_operation-Effect}
use gocode.Workspace.Samples.{
  disk, app, a_file, empty_disk, put, Differ, disk-WriteLaws, disk-RemoveLaws, a_file-TempApart,
}

abbrev a_patch : String
a_patch = "*** Begin Patch\n*** Update File: a.rs\n x\n-y\n+z\n*** Delete File: b\n*** End Patch"

abbrev a_hunk : Hunk
a_hunk = record { old_lines = "x" ∷ "y" ∷ []; new_lines = "x" ∷ "z" ∷ [] }

abbrev operations : List FileOperation
operations = update "a.rs" (a_hunk ∷ []) ∷ delete "b" ∷ []

abbrev some_lines : List String
some_lines = "w" ∷ "x " ∷ "y" ∷ "v" ∷ []

abbrev two_digits : ℕ → String
two_digits n = "2"

applied : apply_hunks two_digits "w\nx \ny\nv\n" (a_hunk ∷ []) "a.rs" ≡ ok ("w\nx\nz\nv\n", 1)
unfolding apply_hunks splice_hunks locate_hunk gocode.Patch.Hunks.find_all_subsequences
    split_content gocode.Patch.Content.without_end gocode.Patch.Content.replace_crlf
    gocode.Base.strip_prefix gocode.Base.split_char gocode.Patch.Hunks.positions
    gocode.Patch.Hunks.matches_at gocode.Patch.Hunks.find_all_subsequences_fuzzy
    gocode.Base.trim_end join_content gocode.Patch.Content.ends_line has_crlf
applied = refl

parse_patch-paths_example :
    (before : List String) × (after : List String) × (touched_paths a_patch
      ≡ before ++ (("a.rs" ∷ "b" ∷ []) ++ after))
unfolding parse_patch gocode.Base.text_lines gocode.Base.trim gocode.Patch.Parse.before_end
    gocode.Patch.Parse.parse_operations gocode.Patch.Parse.line_kind gocode.Base.strip_prefix
    gocode.Patch.Parse.parse_hunks gocode.Patch.Parse.is_section_marker gocode.Patch.Parse.extended
    gocode.Patch.Parse.hunk_line gocode.Patch.Parse.close_hunks
parse_patch-paths_example = parse_patch-paths a_patch operations refl

parse_patch-FailsForArguments_example :
    FailsForArguments (parse_patch "*** Begin Patch\n?\n*** End Patch")
parse_patch-FailsForArguments_example =
    parse_patch-FailsForArguments "*** Begin Patch\n?\n*** End Patch"

join-split_content_example :
    let split = split_content "a\r\n\r\nb\r\n" in
    join_content split.lines split.ending split.trailing_newline ≡ "a\r\n\r\nb\r\n"
unfolding crlf_only
join-split_content_example = join-split_content "a\r\n\r\nb\r\n" (inr refl)

locate_hunk-IsLocation_example :
    LocatedWell some_lines a_hunk.old_lines 0 (locate_hunk two_digits some_lines a_hunk 0 "a.rs")
locate_hunk-IsLocation_example = locate_hunk-IsLocation two_digits some_lines a_hunk 0 "a.rs"

splice_hunks-Edits_example : Edits (a_hunk ∷ []) some_lines ("w" ∷ "x" ∷ "z" ∷ "v" ∷ [])
unfolding splice_hunks locate_hunk gocode.Patch.Hunks.find_all_subsequences
    gocode.Patch.Hunks.positions gocode.Patch.Hunks.matches_at
    gocode.Patch.Hunks.find_all_subsequences_fuzzy gocode.Base.trim_end
splice_hunks-Edits_example =
    splice_hunks-Edits two_digits "a.rs" (a_hunk ∷ []) some_lines ("w" ∷ "x" ∷ "z" ∷ "v" ∷ []) 0 1
      refl

apply_operation-Effect_example :
    Effect disk two_digits Differ disk-WriteLaws disk-RemoveLaws
      (update "a.txt" (a_hunk ∷ []))
      a_file
      (put a_file (some "x\ny\n") empty_disk)
      (apply_operation disk two_digits app
        (update "a.txt" (a_hunk ∷ []))
        (put a_file (some "x\ny\n") empty_disk))
unfolding gocode.Workspace.resolve_workspace_path gocode.Base.trim gocode.Paths.path_starts_with
    gocode.Workspace.canonicalize_best_effort gocode.Paths.path_eq
    gocode.Workspace.resolve_through_symlinks gocode.Workspace.climb
    gocode.Workspace.normalize_lexically gocode.Workspace.push_all gocode.Paths.components
apply_operation-Effect_example =
    apply_operation-Effect disk two_digits Differ disk-WriteLaws disk-RemoveLaws app
      (update "a.txt" (a_hunk ∷ [])) a_file (put a_file (some "x\ny\n") empty_disk) refl
      a_file-TempApart
