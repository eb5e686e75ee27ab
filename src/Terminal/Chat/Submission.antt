-- ===== src/Terminal/Chat/Submission.antt =====
-- What Enter does with the text of the composer of crates/gocode-tui/src/lib.rs.
use Prim.Native.String.{String}
use gocode.Base.{◌≡◌, ◌≢◌, ◌⊎◌, true, false, Option, none, some, str_eq, trim, strip_prefix}
use gocode.Terminal.Commands.{
  ChatSubmission, CustomCommand, expand_custom_command, resolve_custom_command,
}
use gocode.Terminal.Chat.{AppState, Handled}
use mathlib.Core.Option

-- A prompt of a command of the project: its body, with arguments in it.
pub record IsExpansion (s : AppState) (text : String) : Type 0 where
  pub name : String
  pub arguments : String
  pub called : CustomCommand
  pub found : resolve_custom_command s.custom_commands name ≡ some called
  pub expanded : text ≡ expand_custom_command called.body arguments

-- What is submitted is the text itself, what follows a `!` in it, or of a command.
abbrev pub Carries : AppState → Option ChatSubmission → Type 0
Carries s none = Unit
Carries s (some (ChatSubmission.prompt text)) = (text ≡ s.composer.chat_input) ⊎ IsExpansion s text
Carries s (some (ChatSubmission.debug_answer text)) =
    (s.is_asked ≡ true) × (text ≡ s.composer.chat_input)
Carries s (some (ChatSubmission.shell line)) =
    (rest : String) × (strip_prefix "!" (trim s.composer.chat_input) ≡ some rest)
    × (line ≡ trim rest)
    × (str_eq line "" ≡ false)
Carries s (some (ChatSubmission.command _)) = Unit

-- A text has left the composer: something is submitted, or the text waits for the end of the run.
pub record HasLeft (s : AppState) (handled : Handled) : Type 0 where
  pub empty_input : handled.0.composer.chat_input ≡ ""
  pub cursor_at_start : handled.0.composer.cursor ≡ 0
  pub carries : Carries s handled.1
  pub waits :
      handled.1 ≡ none → (s.is_running ≡ true) × (handled.0.queued ≡ some s.composer.chat_input)
  pub submitted : handled.1 ≢ none → handled.0.queued ≡ s.queued

-- The command that a text calls, if any.
abbrev Called : AppState → Option (Option ChatSubmission) → Type 0
Called s o = (command : Option ChatSubmission) × (o ≡ some command) × Carries s command

-- A line of the shell is what follows the `!`, and not blank.
abbrev IsLineOf : String → Option String → Type 0
IsLineOf trimmed none = Unit
IsLineOf trimmed (some line) =
    (rest : String) × (strip_prefix "!" trimmed ≡ some rest)
    × (line ≡ trim rest)
    × (str_eq line "" ≡ false)
