-- ===== src/Subagents/Report.antt =====
-- What crates/gocode-agent/src/subagent_manager.rs writes to a subagent, and what it reads in the
-- final text of one: a question to the supervisor, or a result as a block of JSON. The parser of the
-- block is a parameter, since serde_json derives it.
use gocode.Base.{
  ◌≡◌, refl, Option, none, some, List, [], ◌∷◌, String, str_eq, if◌then◌else◌, format, reverse,
  trim, text_lines, strip_prefix,
}
use gocode.Subagents.{SubagentRecord, SubagentResult, default_result}
use gocode.Agent.{AgentEvent, tool_requested, tool_finished}

abbrev pub json_fence : String
json_fence = "```json"

abbrev pub needs_input : String
needs_input = "NEEDS_INPUT:"

abbrev closing_request : String
closing_request =
    "When you are done, end your final message with a fenced ```json block matching this shape: {\"summary\": string, \"findings\": [string], \"files_read\": [string], \"files_changed\": [string], \"commands_run\": [string], \"tests_run\": [string], \"risks\": [string], \"next_steps\": [string]}. If you cannot complete the objective, still emit the block with as much of it filled in as you know.\n\nIf you need clarification from the supervisor before you can continue, do not emit that block yet — instead end your message with a single line: `NEEDS_INPUT: <your question>`. You will receive the supervisor's answer as your next message and should continue the task from there."

abbrev project_instructions : Option String → String
project_instructions none = ""
project_instructions (some text) =
    if str_eq (trim text) "" then "" else format ("Project instructions:\n" ∷ text ∷ "\n\n" ∷ [])

unfoldable pub render_objective : SubagentRecord → Option String → String
unfolding trim
render_objective r instructions = format (
    "You are a subagent delegated one bounded task by the main Gocode agent.\n\nObjective: "
    ∷ r.task_summary
    ∷ "\n\n"
    ∷ project_instructions instructions
    ∷ closing_request
    ∷ [])

-- The first line, from the last one back, that carries the marker.
unfoldable pub find_question : List String → Option String
unfolding trim strip_prefix
find_question [] = none
find_question (line ∷ lines) = elim (strip_prefix needs_input (trim line)) [
  | none ↦ find_question lines
  | some question ↦ some question
]

abbrev non_empty : Option String → Option String
non_empty none = none
non_empty (some text) = if str_eq (trim text) "" then none else some (trim text)

unfoldable pub detect_waiting_marker : String → Option String
unfolding find_question text_lines
detect_waiting_marker text = non_empty (find_question (reverse (text_lines text)))

-- `str::find`, with the text before the first match and the text after it.
unfoldable pub split_once : String → String → Option (String × String)
unfolding strip_prefix
split_once sep String.[] = elim (strip_prefix sep "") [ none ↦ none | some rest ↦ some ("", rest) ]
split_once sep (String.◌∷◌ c s) = elim (strip_prefix sep (String.◌∷◌ c s)) [
  | some rest ↦ some ("", rest)
  | none ↦ elim (split_once sep s) [
    | none ↦ none
    | some (before, after) ↦ some (String.◌∷◌ c before, after)
  ]
]

abbrev block_end : Option (String × String) → Option String
block_end none = none
block_end (some (block, _)) = some (trim block)

abbrev block_of : Option (String × String) → Option String
block_of none = none
block_of (some (_, after)) = block_end (split_once "```" after)

unfoldable pub extract_json_block : String → Option String
unfolding split_once trim
extract_json_block text = block_of (split_once json_fence text)

abbrev with_summary : String → Option SubagentResult → SubagentResult
with_summary text none = record default_result { summary = trim text }
with_summary text (some result) =
    if str_eq (trim result.summary) "" then record result { summary = trim text } else result

abbrev parsed_block : (String → Option SubagentResult) → Option String → Option SubagentResult
parsed_block parse none = none
parsed_block parse (some block) = parse block

unfoldable pub parse_result : (String → Option SubagentResult) → String → SubagentResult
unfolding extract_json_block
parse_result parse final_text =
    with_summary final_text (parsed_block parse (extract_json_block final_text))

unfoldable pub progress_line : {V : Type 0} → AgentEvent V → Option String
progress_line (tool_requested call) = some (format ("running " ∷ call.name ∷ []))
progress_line (tool_finished result) = some (format ("finished " ∷ result.call_id ∷ []))
progress_line _ = none

block_read : extract_json_block "done ```json {} ``` ```json x```" ≡ some "{}"
unfolding extract_json_block
block_read = refl

question_read : detect_waiting_marker "a\nNEEDS_INPUT: which?\n\n" ≡ some "which?"
unfolding detect_waiting_marker
question_read = refl
