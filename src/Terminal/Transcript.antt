-- ===== src/Terminal/Transcript.antt =====
-- The transcript of crates/gocode-tui/src/lib.rs: what the events of a run add to its entries. `none` is a
-- panic.
use Prim.Native.String
use Prim.Native.String.{String, len}
use gocode.Base.{
  ℕ, Bool, true, false, not, List, [], ◌∷◌, ◌++◌, reverse, if◌then◌else◌, is_empty, Option, none,
  some, str_eq, ltb,
}
use gocode.Terminal.Cuts.{◌>>=◌, split_at_byte}

pub data ToolActivityStatus : Type 0 where
  started : ToolActivityStatus
  succeeded : ToolActivityStatus
  failed : ToolActivityStatus
  denied : ToolActivityStatus
  cancelled : ToolActivityStatus

pub record ToolActivity : Type 0 where
  pub id : String
  pub name : String
  pub status : ToolActivityStatus
  pub detail : String
  pub output : String
  pub expanded : Bool

pub data ChatEntry : Type 0 where
  user : String → ChatEntry
  assistant : String → ChatEntry
  reasoning : String → ChatEntry
  tool : ToolActivity → ChatEntry
  file_changes : List String → ChatEntry
  warning : String → ChatEntry
  error : String → ChatEntry
  info : String → ChatEntry

-- The first entry of a tool is shown in full or not, the other way than before.
unfoldable pub toggle_first : List ChatEntry → List ChatEntry
toggle_first [] = []
toggle_first (ChatEntry.tool a ∷ entries) =
    ChatEntry.tool (record a { expanded = not a.expanded }) ∷ entries
toggle_first (entry ∷ entries) = entry ∷ toggle_first entries

unfoldable pub toggled_last : List ChatEntry → List ChatEntry
toggled_last entries = reverse (toggle_first (reverse entries))

abbrev pub max_tool_output_chars : ℕ
max_tool_output_chars = 4000

-- `String::truncate`.
unfoldable pub truncate : ℕ → String → Option String
truncate n s = split_at_byte n s >>= λ parts. some parts.0

-- The output of a tool with one more chunk.
unfoldable pub appended : String → String → Option String
appended chunk output =
    let longer = String.◌++◌ output chunk in
    let cut = truncate max_tool_output_chars longer >>= λ kept.
    some (String.◌++◌ kept "\n… output truncated …") in
    if ltb (len output) max_tool_output_chars
    then if ltb max_tool_output_chars (len longer) then cut else some longer
    else some output

-- The first entry of a call takes the chunk.
unfoldable pub append_first : String → String → List ChatEntry → Option (List ChatEntry)
append_first id chunk [] = some []
append_first id chunk (ChatEntry.tool a ∷ entries) =
    let here = appended chunk a.output >>= λ output.
    some (ChatEntry.tool (record a { output = output }) ∷ entries) in
    let later = append_first id chunk entries >>= λ rest. some (ChatEntry.tool a ∷ rest) in
    if str_eq a.id id then here else later
append_first id chunk (entry ∷ entries) =
    append_first id chunk entries >>= λ rest. some (entry ∷ rest)

unfoldable pub append_tool_output : String → String → List ChatEntry → Option (List ChatEntry)
append_tool_output id chunk entries =
    append_first id chunk (reverse entries) >>= λ rest. some (reverse rest)

-- The first entry of a call takes its status, or there is none.
unfoldable pub update_first :
    String → String → ToolActivityStatus → String → List ChatEntry → Option (List ChatEntry)
update_first id name status detail [] = none
update_first id name status detail (ChatEntry.tool a ∷ entries) =
    let changed = record a {
      status = status;
      detail = detail;
      name = if str_eq name "" then a.name else name;
    } in
    let later =
      update_first id name status detail entries >>= λ rest. some (ChatEntry.tool a ∷ rest) in
    if str_eq a.id id then some (ChatEntry.tool changed ∷ entries) else later
update_first id name status detail (entry ∷ entries) =
    update_first id name status detail entries >>= λ rest. some (entry ∷ rest)

unfoldable pub apply_tool_activity :
    String → String → ToolActivityStatus → String → List ChatEntry → List ChatEntry
apply_tool_activity id name status detail entries =
    elim (update_first id name status detail (reverse entries)) [
      | some changed ↦ reverse changed
      | none ↦
          entries
          ++ (ChatEntry.tool (record {
            id = id;
            name = name;
            status = status;
            detail = detail;
            output = "";
            expanded = false;
          })
              ∷ [])
    ]

-- The entries, and the files that changed since they were last listed.
unfoldable pub flush_file_changes : List ChatEntry → List String → List ChatEntry × List String
flush_file_changes entries buffer =
    if is_empty buffer
    then (entries, buffer)
    else (entries ++ (ChatEntry.file_changes buffer ∷ []), [])

-- A piece of the assistant's text goes to the last entry while that is being streamed.
unfoldable pub push_last : String → List ChatEntry → Option (List ChatEntry)
push_last delta [] = none
push_last delta (ChatEntry.assistant text ∷ []) =
    some (ChatEntry.assistant (String.◌++◌ text delta) ∷ [])
push_last delta (entry ∷ []) = none
push_last delta (entry ∷ next ∷ entries) =
    push_last delta (next ∷ entries) >>= λ rest. some (entry ∷ rest)

unfoldable pub push_assistant_delta : String → List ChatEntry → Bool → List ChatEntry × Bool
push_assistant_delta delta entries streaming =
    let new = entries ++ (ChatEntry.assistant delta ∷ []) in
    elim (if streaming then push_last delta entries else none) [
      | some grown ↦ (grown, streaming)
      | none ↦ (new, true)
    ]

unfoldable pub push_last_reasoning : String → List ChatEntry → Option (List ChatEntry)
push_last_reasoning delta [] = none
push_last_reasoning delta (ChatEntry.reasoning text ∷ []) =
    some (ChatEntry.reasoning (String.◌++◌ text delta) ∷ [])
push_last_reasoning delta (entry ∷ []) = none
push_last_reasoning delta (entry ∷ next ∷ entries) =
    push_last_reasoning delta (next ∷ entries) >>= λ rest. some (entry ∷ rest)

unfoldable pub push_reasoning_delta : String → List ChatEntry → Bool → List ChatEntry × Bool
push_reasoning_delta delta entries streaming =
    let new = entries ++ (ChatEntry.reasoning delta ∷ []) in
    elim (if streaming then push_last_reasoning delta entries else none) [
      | some grown ↦ (grown, streaming)
      | none ↦ (new, true)
    ]
