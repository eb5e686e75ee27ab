-- ===== src/Contract/Samples.antt =====
-- Tool calls and results for tests.
use gocode.Base.{false, none, some, [], ◌∷◌}
use gocode.Paths.{FilePath, Component}
use gocode.Json.Samples.{Sample, path_of, command_of}
use gocode.Contract.{
  ToolCall, ToolResult, success, pos, ChangeKind, new_output, success_result, failed_result,
}

abbrev pub source_path : FilePath
source_path = Component.normal "a.rs" ∷ []

abbrev pub write_call : ToolCall Sample
write_call = record { id = "1"; name = "write_file"; arguments = path_of "a.rs" }

abbrev pub test_call : ToolCall Sample
test_call = record { id = "2"; name = "run_command"; arguments = command_of "cargo" ("test" ∷ []) }

abbrev pub read_call : ToolCall Sample
read_call = record { id = "3"; name = "read_file"; arguments = path_of "a.rs" }

-- A file was written.
abbrev pub written : ToolResult
written = record {
  call_id = "1";
  status = success;
  output = new_output "wrote a.rs";
  metadata = record {
    duration_ms = none;
    affected_files = record { path = source_path; kind = ChangeKind.modified } ∷ [];
    exit_code = none;
    truncated = false;
  };
}

-- A test that failed, and one that did not.
abbrev pub tests_failed : ToolResult
tests_failed = record (failed_result "2" "1 test failed") {
  metadata = record {
    duration_ms = none;
    affected_files = [];
    exit_code = some (pos 101);
    truncated = false;
  };
}

abbrev pub tests_passed : ToolResult
tests_passed = success_result "2" (new_output "ok")

abbrev pub file_read : ToolResult
file_read = success_result "3" (new_output "fn main() {}")
