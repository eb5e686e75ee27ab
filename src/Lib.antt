-- ===== src/Lib.antt =====
-- Verification of Gocode, a coding agent for the terminal, in crates/. A run of the agent streams an
-- inference from a provider, assembles the tool calls of the response, executes the tools with
-- permission, and goes on until the model answers or a limit is reached. Its edits are kept in an undo
-- history.
--
-- The parts, and the files that model them:
--   * Agent (crates/gocode-agent/src/agent.rs and its neighbours): `Agent::run` is `run` of
--     Agent/Landing, the loop of `Agent::drive` is `drive_loop` of Agent/Drive, one tool call of it is
--     `call_step` of Agent/Step with `execute_tool` of Agent/Calls, and `Agent::run_turn` is `run_turn`
--     of Agent/Turn. The local variables of the loop are the record `RunState`; the events that the
--     program sends are collected in it. Agent/Context builds the request (context.rs). Limits,
--     states, errors and events are in Agent.
--   * ToolCalls (crates/gocode-agent/src/toolcalls.rs): the assembler of streamed tool calls, over a
--     sorted map for the `BTreeMap`.
--   * Progress (crates/gocode-agent/src/progress.rs): what a run owes after its calls. Agent calls
--     `observe` after each tool call and reads the answers before the next one.
--   * Contract (crates/gocode-tools/src/contract.rs): tool calls, results and errors.
--   * Permissions (crates/gocode-tools/src/permissions.rs): the risk of commands, the policies and
--     `authorize`. Permissions/Modes adds the modes of a session, from crates/gocode-core/src/lib.rs
--     and crates/gocode/src/main.rs.
--   * Undo (crates/gocode-tools/src/undo.rs): the history of edits, two stacks of transactions, over an
--     interface `Files` that reads, writes and removes files.
--   * Patch (crates/gocode-tools/src/patch.rs): Patch/Parse is the parser, Patch/Content splits and
--     joins files, Patch/Hunks finds and applies hunks, and Patch/Apply is `apply_patch`, over the
--     file system of Workspace. Agent uses `touched_paths` to take the snapshots that Undo restores.
--   * Workspace (crates/gocode-tools/src/workspace.rs): `resolve_workspace_path` and
--     `atomic_write_file`, over the record `FileSystem` of the calls of `std::fs`.
--     Patch/Apply calls both.
--   * Subagents (crates/gocode-core/src/subagent.rs, crates/gocode-agent/src/subagent_manager.rs and
--     agent_spawn_tool.rs there): workers for delegated tasks, each an agent of its own. Subagents/Spawn
--     checks a request, Subagents/Manager is `SubagentManager` with its locked maps as functions,
--     Subagents/Tasks is `SubagentWorker::run` cut at its waits, and Subagents/Steps interleaves them.
--     Subagents/Cost counts the waits that are left to the tasks, and Subagents/Policy is what their
--     agents may do.
--     Subagents/Report reads the final text of a worker, Subagents/Nesting is the tool that spawns a
--     child, and Subagents/Files the saved records. What a step can change is in Subagents/Change.
--   * Process (crates/gocode-tools/src/process.rs): Process/Redact is the redaction of secrets, which the
--     messages to subagents pass through, and Process/Buffer the bounded buffer of a command's output.
--     Process/Run is `run_process` from the started child on, with the answers of its `select!` as a list.
--   * Terminal (crates/gocode-tui/src/lib.rs): Terminal/Composer is the text that the user edits, with
--     its history, over the cuts of Terminal/Cuts and the positions of Terminal/Lines.
--     Terminal/Chat is `handle_chat_event`, which reads keys by Terminal/Keys and submits prompts and
--     the commands of Terminal/Commands. Terminal/Transcript is what a run adds to the entries that are
--     shown, and Terminal/Rows wraps them and picks the rows to show. `none` stands for a panic there.
--     Of the keys and events of crossterm there are those that the program names, and one for the rest.
--   * Base, Paths and Json hold what the parts share: lists, strings, results, sorted maps, paths as
--     lists of components, and the interface of JSON values.
--
-- The world: the provider, the tools, the files of the project and the user's cancellation are not
-- part of these crates' logic. Agent/World gives them as functions on a state that time may change,
-- with no law assumed of them there. A stream is the list of what it will deliver. Undo/Contents
-- states what it needs of files as `FilesLaws`, which holds of files that are a function from paths to
-- contents (Undo/Tests). Workspace/Inside, Workspace/Atomic and Patch/Effects state what they need of
-- the file system as `FileSystemLaws`, `WriteLaws` and `RemoveLaws`, which hold of the disk of
-- Workspace/Samples. serde_json is the record `Json`, and how numbers are printed is the record
-- `Printers`.
--
-- Subagents: a step is what the code does up to the next wait at which another task can change what it
-- reads. `spawn`, `send_message` and `stop` are two steps each, as they let go of one lock before they
-- ask for the next, and a task ends in two: its record is final, and then, its events sent, it gives its
-- slot back. The channel of the events has 128 places in the program; here an event is listed when its
-- sending begins, and that the interface goes on reading is assumed where the end of the tasks is
-- concerned. An identifier is fresh when it is entered, as a random UUID is. Which branch of a `select!`
-- is taken, and which of two callers comes first, is open.
--
-- Bounds and fuel: the loop of a run takes one more than `max_turns` as its fuel, since each round but
-- the last begins a turn, and Agent/Totality shows that it does not run out. The loop of the patch
-- parser takes the number of lines, since each round takes a line, and Patch/Errors shows the same.
-- Wrapping a line takes the number of its characters, since each round takes one, and Rows/Wrapping
-- shows that all of them come out. Redaction and the expansion of a command take a character in each
-- round as well.
-- Counters are natural numbers: the program counts calls, turns and bytes in `usize`, far from its
-- bound, and the one sum that saturates is of characters of texts that are in memory.
--
-- Paths are those of Unix. Texts are Unicode; a file that is not UTF-8 reads as absent, as the program
-- treats it in the undo history.
--
-- Not modelled: drawing and the popups of the terminal interface, the command line, the MCP and
-- LSP clients, the provider's HTTP mapping, the updater, credentials, sessions and their files,
-- the start of processes, and the tools themselves. They are drawing, input and output, or parts
-- that the ones above only call.
pub mod Agent
pub mod Base
pub mod Contract
pub mod Json
pub mod Patch
pub mod Paths
pub mod Permissions
pub mod Process
pub mod Progress
pub mod Subagents
pub mod Terminal
pub mod ToolCalls
pub mod Undo
pub mod Workspace
