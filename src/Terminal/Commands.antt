-- ===== src/Terminal/Commands.antt =====
-- The slash commands of crates/gocode-tui/src/lib.rs and the project's own ones, which the composer suggests
-- and submits.
use Prim.Native.String.{String, count}
use gocode.Base.{
  ℕ, zero, suc, Bool, List, [], ◌∷◌, ◌++◌, map, if◌then◌else◌, Option, none, some, str_eq,
  starts_with, is_whitespace, trim,
}
use gocode.Terminal.Cuts.{drop_chars}
use Prim.Native.String
use mathlib.Core.Option

pub data SlashCommand : Type 0 where
  keymap : String → SlashCommand
  theme : String → SlashCommand
  personality : String → SlashCommand
  model : SlashCommand
  effort : SlashCommand
  settings : SlashCommand
  provider : SlashCommand
  status : SlashCommand
  clear : SlashCommand
  compact : SlashCommand
  auto_compact : SlashCommand
  new_session : SlashCommand
  resume_session : SlashCommand
  fork_session : SlashCommand
  help : SlashCommand
  init : SlashCommand
  skills : SlashCommand
  mcp : SlashCommand
  plan_mode : SlashCommand
  review : String → SlashCommand
  worktree : String → SlashCommand
  undo : String → SlashCommand
  redo : String → SlashCommand
  debug : String → SlashCommand
  agent : String → SlashCommand
  agents : SlashCommand
  exit : SlashCommand

pub record CustomCommand : Type 0 where
  pub name : String
  pub description : String
  pub body : String

pub data ChatSubmission : Type 0 where
  prompt : String → ChatSubmission
  command : SlashCommand → ChatSubmission
  debug_answer : String → ChatSubmission
  shell : String → ChatSubmission

abbrev pub slash_commands : List (String × (String × SlashCommand))
slash_commands =
    ("/keymap", ("List or change keyboard shortcuts", SlashCommand.keymap ""))
    ∷ ("/theme", ("List or change the visual theme", SlashCommand.theme ""))
    ∷ ("/personality", ("List or change the response style", SlashCommand.personality ""))
    ∷ ("/model", ("Switch the active model", SlashCommand.model))
    ∷ ("/effort", ("Change the reasoning effort level", SlashCommand.effort))
    ∷ ("/settings", ("Change API key, model, or reasoning effort", SlashCommand.settings))
    ∷ ("/provider", ("Show the active provider", SlashCommand.provider))
    ∷ ("/status", ("Show the resolved model, provider, and reasoning effort", SlashCommand.status))
    ∷ ("/clear", ("Clear the conversation and forget this session's history", SlashCommand.clear))
    ∷ ("/compact", ("Summarize and shrink the conversation history now", SlashCommand.compact))
    ∷ (
      "/autocompact",
      (
        "Toggle automatic compaction when context gets large (on by default)",
        SlashCommand.auto_compact,
      ),
    )
    ∷ ("/new", ("Start a new session without discarding the current one", SlashCommand.new_session))
    ∷ ("/resume", ("Pick a previous session to continue", SlashCommand.resume_session))
    ∷ (
      "/fork",
      (
        "Branch this conversation into a new session, leaving this one untouched",
        SlashCommand.fork_session,
      ),
    )
    ∷ ("/help", ("Show the command reference", SlashCommand.help))
    ∷ ("/init", ("Explore the project and write an AGENTS.md overview", SlashCommand.init))
    ∷ ("/skills", ("List discovered skills (global and project)", SlashCommand.skills))
    ∷ ("/mcp", ("Manage MCP servers: list, connect, disconnect, inspect tools", SlashCommand.mcp))
    ∷ (
      "/plan",
      ("Switch to Plan mode (read-only, no writes or risky commands)", SlashCommand.plan_mode),
    )
    ∷ ("/review", ("Review a diff, branch, or the working tree's changes", SlashCommand.review ""))
    ∷ (
      "/worktree",
      ("Create, list, switch to, or remove an isolated Git worktree", SlashCommand.worktree ""),
    )
    ∷ ("/undo", ("Undo the agent's last edit (or `/undo n` for the last n)", SlashCommand.undo ""))
    ∷ ("/redo", ("Redo the last undone edit (or `/redo n` for the last n)", SlashCommand.redo ""))
    ∷ (
      "/debug",
      ("Investigate a bug safely (`status`, `stop`, or `summary`)", SlashCommand.debug ""),
    )
    ∷ (
      "/agent",
      (
        "Spawn, message, stop, or apply a subagent (`spawn`, `status`, `message`, `stop`, `result`, `apply`, `cleanup`)",
        SlashCommand.agent "",
      ),
    )
    ∷ ("/agents", ("List active and recent subagents", SlashCommand.agents))
    ∷ ("/exit", ("Exit Gocode", SlashCommand.exit))
    ∷ ("/quit", ("Exit Gocode", SlashCommand.exit))
    ∷ []

-- `Iterator::filter`.
abbrev pub filter {ℓ} : {A : Type ℓ} → (A → Bool) → List A → List A
filter p [] = []
filter p (x ∷ xs) = let rest = filter p xs in if p x then x ∷ rest else rest

unfoldable pub slash_suggestions : String → List CustomCommand → List (String × String)
slash_suggestions input custom_commands =
    let named : String × String → Bool = λ entry. starts_with entry.0 input in
    let builtins = map (λ (c : String × (String × SlashCommand)). (c.0, c.1.0)) slash_commands in
    let custom =
      map (λ (c : CustomCommand). (String.◌++◌ "/" c.name, c.description)) custom_commands in
    if starts_with input "/" then filter named builtins ++ filter named custom else []

-- `Iterator::find`.
abbrev pub find_first {ℓ} : {A : Type ℓ} → (A → Bool) → List A → Option A
find_first p [] = none
find_first p (x ∷ xs) = let rest = find_first p xs in if p x then some x else rest

unfoldable pub resolve_slash_command : String → Option SlashCommand
resolve_slash_command input =
    Option.map (λ (c : String × (String × SlashCommand)). c.1.1)
      (find_first (λ c. str_eq c.0 input) slash_commands)

unfoldable pub resolve_custom_command : List CustomCommand → String → Option CustomCommand
resolve_custom_command custom_commands name =
    find_first (λ (c : CustomCommand). str_eq (String.◌++◌ "/" c.name) name) custom_commands

-- `str::replace`; each round takes a character at least.
unfoldable pub replace_rounds : ℕ → String → String → String → String
replace_rounds zero pattern text s = s
replace_rounds (suc fuel) pattern text String.[] = ""
replace_rounds (suc fuel) pattern text (String.◌∷◌ c s) =
    let skipped = replace_rounds fuel pattern text (drop_chars (count pattern) (String.◌∷◌ c s)) in
    let kept = replace_rounds fuel pattern text s in
    if starts_with (String.◌∷◌ c s) pattern then String.◌++◌ text skipped else String.◌∷◌ c kept

unfoldable pub expand_custom_command : String → String → String
expand_custom_command body arguments = replace_rounds (count body) "$ARGUMENTS" arguments body

-- `split_once(char::is_whitespace)`.
unfoldable pub split_once_blank : String → Option (String × String)
split_once_blank String.[] = none
split_once_blank (String.◌∷◌ c s) =
    let rest = split_once_blank s in
    if is_whitespace c
    then some ("", s)
    else Option.map (λ (p : String × String). (String.◌∷◌ c p.0, p.1)) rest

-- The built-in command that takes what was typed after its name.
abbrev pub typed_builtins : List (String × (String → SlashCommand))
typed_builtins =
    ("/review", λ (s : String). SlashCommand.review s)
    ∷ ("/worktree", λ (s : String). SlashCommand.worktree s)
    ∷ ("/undo", λ (s : String). SlashCommand.undo s)
    ∷ ("/redo", λ (s : String). SlashCommand.redo s)
    ∷ ("/debug", λ (s : String). SlashCommand.debug s)
    ∷ ("/agent", λ (s : String). SlashCommand.agent s)
    ∷ ("/keymap", λ (s : String). SlashCommand.keymap s)
    ∷ ("/theme", λ (s : String). SlashCommand.theme s)
    ∷ ("/personality", λ (s : String). SlashCommand.personality s)
    ∷ []

unfoldable pub typed_command : List CustomCommand → String → String → Option ChatSubmission
typed_command custom_commands name arguments =
    let own =
      Option.map
        (λ (c : CustomCommand).
          ChatSubmission.prompt (expand_custom_command c.body (trim arguments)))
        (resolve_custom_command custom_commands name) in
    elim (find_first (λ (b : String × (String → SlashCommand)). str_eq name b.0) typed_builtins) [
      | none ↦ own
      | some builtin ↦ some (ChatSubmission.command (builtin.1 (trim arguments)))
    ]

-- The command that is named by the chosen suggestion.
unfoldable pub suggested_command : List CustomCommand → String → Option ChatSubmission
suggested_command custom_commands name =
    let own =
      Option.map (λ (c : CustomCommand). ChatSubmission.prompt (expand_custom_command c.body ""))
        (resolve_custom_command custom_commands name) in
    elim (resolve_slash_command name) [
      | none ↦ own
      | some builtin ↦ some (ChatSubmission.command builtin)
    ]
