-- ===== src/Process/Tests.antt =====
-- Runs of crates/gocode-tools/src/process.rs at fixed inputs.
use Prim.Native.String.{String, len}
use gocode.Base.{ℕ, none, ◌≡◌, refl, arith, List, true, false, format, ◌↔◌, ◌≤◌}
use gocode.Process.Buffer.{new_buffer, split_bytes, cut_bytes, push_tail, push, push_all, finish}
use gocode.Process.Redact.{redact_secrets}
use gocode.Process.Run.{
  IoEvent, ProcessStream, run_process, io_loop, read_event, close_stream, end_process,
}
use gocode.Process.Buffer.Bounds.{push_all-IsBounded}

abbrev two_chunks : List String
two_chunks = List.◌∷◌ "abc" (List.◌∷◌ "def" List.[])

push_all-IsBounded_example :
    (len (push_all two_chunks (new_buffer 4)).head ≤ 4)
    × (len (push_all two_chunks (new_buffer 4)).tail ≤ 4)
    × ((len (format two_chunks) ≤ 4)
        ↔ (finish (push_all two_chunks (new_buffer 4)) ≡ (format two_chunks, false)))
push_all-IsBounded_example = push_all-IsBounded 4 two_chunks (omega arith, (omega arith, tt))

keeps_both_ends :
    finish (push_all two_chunks (new_buffer 2)) ≡ ("ab\n[... output truncated ...]\nef", true)
unfolding finish push_all push push_tail split_bytes cut_bytes new_buffer
keeps_both_ends = refl

-- A character that does not fit whole leaves the head short of the limit, and a later chunk goes before it.
later_chunk_first :
    finish (push_all (List.◌∷◌ "abcd€x" (List.◌∷◌ "z" List.[])) (new_buffer 5))
    ≡ ("abcdz\n[... output truncated ...]\n€x", true)
unfolding finish push_all push push_tail split_bytes cut_bytes new_buffer
later_chunk_first = refl

-- A secret that lies across two chunks is kept.
secret_kept :
    (push (redact_secrets "hunter2 ok") (push (redact_secrets "token=") (new_buffer 100))).head
    ≡ "token=[REDACTED]hunter2 ok"
unfolding push new_buffer redact_secrets
secret_kept = refl

-- A child that closes both streams and goes on is not stopped, whatever passes later.
closed_streams_wait :
    (elapsed : ℕ) (events : List IoEvent) (out err : String)
    → run_process elapsed
        (List.◌∷◌ (IoEvent.read_chunk ProcessStream.stdout none) (
          List.◌∷◌
            (IoEvent.read_chunk ProcessStream.stderr none)
            (List.◌∷◌ IoEvent.deadline events)))
        out
        err
        none
      ≡ none
unfolding run_process io_loop read_event close_stream end_process
closed_streams_wait elapsed events out err = refl
