-- ===== src/Subagents/Files.antt =====
-- The saved records of crates/gocode-core/src/subagent.rs, and how
-- crates/gocode-agent/src/subagent_manager.rs looks one up. The readable files of the directory are a
-- list; `None` is an entry that is no record.
use gocode.Base.{
  ℕ, leb, Bool, Option, none, some, List, [], ◌∷◌, String, starts_with, if◌then◌else◌,
}
use gocode.Subagents.{SubagentRecord, is_terminal, interrupted, set_status}

abbrev readable : List (Option SubagentRecord) → List SubagentRecord
readable [] = []
readable (none ∷ entries) = readable entries
readable (some r ∷ entries) = r ∷ readable entries

-- `sort_by_key` with the latest update first; it is stable.
unfoldable pub insert_record : SubagentRecord → List SubagentRecord → List SubagentRecord
insert_record r [] = r ∷ []
insert_record r (s ∷ records) =
    let later = s ∷ insert_record r records in
    if leb s.updated_at_unix r.updated_at_unix then r ∷ s ∷ records else later

unfoldable pub sort_records : List SubagentRecord → List SubagentRecord
sort_records [] = []
sort_records (r ∷ records) = insert_record r (sort_records records)

unfoldable pub list_subagents : List (Option SubagentRecord) → List SubagentRecord
unfolding sort_records insert_record
list_subagents entries = sort_records (readable entries)

-- `recover_interrupted`: the identifiers of the records that are saved as interrupted, and the records as
-- they are on disk afterwards. `saves` says which saves succeed.
unfoldable pub recover_interrupted :
    ℕ → (SubagentRecord → Bool) → List SubagentRecord → List String × List SubagentRecord
recover_interrupted now saves [] = ([], [])
recover_interrupted now saves (r ∷ records) =
    let (recovered, rest) = recover_interrupted now saves records in
    let r' = set_status now interrupted r in
    if is_terminal r.status
    then (recovered, r ∷ rest)
    else if saves r'
    then (r'.id ∷ recovered, r' ∷ rest)
    else (recovered, r ∷ rest)

abbrev the_only : List SubagentRecord → Option SubagentRecord
the_only (r ∷ []) = some r
the_only _ = none

unfoldable pub with_prefix : String → List SubagentRecord → List SubagentRecord
with_prefix prefix [] = []
with_prefix prefix (r ∷ records) =
    let rest = with_prefix prefix records in if starts_with r.id prefix then r ∷ rest else rest

abbrev or_only : List SubagentRecord → Option SubagentRecord → Option SubagentRecord
or_only matches none = the_only matches
or_only matches (some r) = some r

-- `SubagentManager::find`: the record of an identifier, or the one whose identifier begins so.
unfoldable pub find_subagent :
    (String → Option SubagentRecord) → List (Option SubagentRecord) → String → Option SubagentRecord
unfolding list_subagents with_prefix
find_subagent load entries id = or_only (with_prefix id (list_subagents entries)) (load id)
