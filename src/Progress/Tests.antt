-- ===== src/Progress/Tests.antt =====
-- What a run owes after concrete calls.
use gocode.Base.{◌≤◌, ◌≡◌, ◌↔◌, refl, true, List, [], ◌∷◌, String}
use gocode.Json.Samples.{sample_json}
use gocode.Contract.Samples.{write_call, test_call, read_call, written, tests_failed, file_read}
use gocode.Progress.{
  default_progress, requires_validation, has_no_progress, max_unchanged_exploration_results,
}
use gocode.Progress.Latch.{SetAtLast}
use gocode.Progress.Gate.{
  Observation, observe_all, changes_files, validates_well, requires_validation_iff,
}
use gocode.Progress.Evidence.{observed, streak, no_progress_iff}

-- An edit, its failed test, and a look at the file.
abbrev edit_and_test : List (Observation sample_json)
edit_and_test = (write_call, written) ∷ (test_call, tests_failed) ∷ []

abbrev read_thrice : List (Observation sample_json)
read_thrice = (read_call, file_read) ∷ (read_call, file_read) ∷ (read_call, file_read) ∷ []

owes_validation :
    requires_validation (observe_all sample_json default_progress edit_and_test) ≡ true
unfolding observe_all gocode.Progress.observe gocode.Progress.is_validation_call
    gocode.Progress.is_validation_command gocode.Progress.validation_succeeded
owes_validation = refl

no_progress_after : has_no_progress (observed sample_json read_thrice) ≡ true
unfolding has_no_progress observed gocode.Progress.observe gocode.Progress.is_validation_call
    gocode.Progress.observe_exploration_result
no_progress_after = refl

requires_validation_iff_example :
    (requires_validation (observe_all sample_json default_progress edit_and_test) ≡ true)
    ↔ SetAtLast (changes_files sample_json) (validates_well sample_json) edit_and_test
requires_validation_iff_example = requires_validation_iff sample_json edit_and_test

no_progress_iff_example : (has_no_progress (observed sample_json read_thrice) ≡ true) ↔ (
    (content : String) × (max_unchanged_exploration_results
      ≤ streak sample_json content read_thrice))
no_progress_iff_example = no_progress_iff sample_json read_thrice
