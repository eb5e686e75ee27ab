-- ===== src/Process/Run.antt =====
-- `run_process` of crates/gocode-tools/src/process.rs, from the started child on. What its `select!` sees is
-- a list of events. What is left in the pipes after it, with nothing for what is not read, and how the
-- child ends are arguments; `none` stands for a child that does not end.
use Prim.Native.Nat.{min}
use Prim.Native.String.{String}
use gocode.Contract.{ℤ}
use gocode.Base.{
  ℕ, Bool, true, false, ◌&&◌, not, List, [], ◌∷◌, ◌++◌, Option, none, some, if◌then◌else◌, str_eq,
}
use gocode.Process.Buffer.{BoundedBuffer, new_buffer, push, finish}
use gocode.Process.Redact.{redact_secrets}

pub data ProcessStream : Type 0 where
  stdout : ProcessStream
  stderr : ProcessStream

pub data ProcessOutcome : Type 0 where
  completed : ProcessOutcome
  timed_out : ProcessOutcome
  cancelled : ProcessOutcome

-- A branch of the `select!`; a read with nothing ends its stream.
pub data IoEvent : Type 0 where
  cancellation : IoEvent
  deadline : IoEvent
  read_chunk : ProcessStream → Option String → IoEvent

abbrev pub default_output_limit : ℕ
default_output_limit = 100000

-- The local variables of the loop, with what the sink was given.
pub record Io : Type 0 where
  pub stdout_buffer : BoundedBuffer
  pub stderr_buffer : BoundedBuffer
  pub stdout_open : Bool
  pub stderr_open : Bool
  pub shown : List (ProcessStream × String)

unfoldable pub take_chunk : ProcessStream → String → Io → Io
take_chunk ProcessStream.stdout text io = record io {
  stdout_buffer = push (redact_secrets text) io.stdout_buffer;
  shown = io.shown ++ ((ProcessStream.stdout, redact_secrets text) ∷ []);
}
take_chunk ProcessStream.stderr text io = record io {
  stderr_buffer = push (redact_secrets text) io.stderr_buffer;
  shown = io.shown ++ ((ProcessStream.stderr, redact_secrets text) ∷ []);
}

unfoldable pub close_stream : ProcessStream → Io → Io
close_stream ProcessStream.stdout io = record io { stdout_open = false }
close_stream ProcessStream.stderr io = record io { stderr_open = false }

unfoldable pub read_event : ProcessStream → Option String → Io → Io
read_event stream none io = close_stream stream io
read_event stream (some text) io = take_chunk stream text io

-- The loop, with how it was left; `none` where it still waits.
unfoldable pub io_loop : List IoEvent → Io → Option (ProcessOutcome × Io)
io_loop [] io =
    if not io.stdout_open && not io.stderr_open then some (ProcessOutcome.completed, io) else none
io_loop (event ∷ events) io =
    let next : Option (ProcessOutcome × Io) = elim event [
      | IoEvent.cancellation ↦ some (ProcessOutcome.cancelled, io)
      | IoEvent.deadline ↦ some (ProcessOutcome.timed_out, io)
      | IoEvent.read_chunk stream chunk ↦ io_loop events (read_event stream chunk io)
    ] in
    if not io.stdout_open && not io.stderr_open then some (ProcessOutcome.completed, io) else next

unfoldable pub drain_remaining : ProcessStream → String → Io → Io
drain_remaining stream remaining io =
    if str_eq remaining "" then io else take_chunk stream remaining io

pub record ProcessResult : Type 0 where
  pub exit_code : Option ℤ
  pub stdout : String
  pub stderr : String
  pub stdout_truncated : Bool
  pub stderr_truncated : Bool
  pub duration_ms : ℕ
  pub outcome : ProcessOutcome

unfoldable pub result_of : ℕ → Option ℤ → ProcessOutcome → Io → ProcessResult
result_of elapsed exit_code outcome io =
    let (out, out_truncated) = finish io.stdout_buffer in
    let (err, err_truncated) = finish io.stderr_buffer in
    record {
      exit_code = exit_code;
      stdout = out;
      stderr = err;
      stdout_truncated = out_truncated;
      stderr_truncated = err_truncated;
      duration_ms = min elapsed 18446744073709551615;
      outcome = outcome;
    }

-- What is left in the pipes is read only if the child was not stopped; then its end is awaited.
unfoldable pub end_process :
    ℕ → String → String → Option (Option ℤ) → Option (ProcessOutcome × Io) → Option ProcessResult
end_process elapsed out err exit none = none
end_process elapsed out err none (some (ProcessOutcome.completed, io)) = none
end_process elapsed out err (some code) (some (ProcessOutcome.completed, io)) = some (
    result_of elapsed code ProcessOutcome.completed
      (drain_remaining ProcessStream.stderr err (drain_remaining ProcessStream.stdout out io)))
end_process elapsed out err exit (some (ProcessOutcome.timed_out, io)) =
    some (result_of elapsed none ProcessOutcome.timed_out io)
end_process elapsed out err exit (some (ProcessOutcome.cancelled, io)) =
    some (result_of elapsed none ProcessOutcome.cancelled io)

unfoldable pub run_process :
    ℕ → List IoEvent → String → String → Option (Option ℤ) → Option ProcessResult
run_process elapsed events out err exit = end_process elapsed out err exit (
    io_loop events (record {
      stdout_buffer = new_buffer default_output_limit;
      stderr_buffer = new_buffer default_output_limit;
      stdout_open = true;
      stderr_open = true;
      shown = [];
    }))
