-- ===== src/Permissions/Tests.antt =====
-- The permissions at concrete requests.
use gocode.Base.{
  ◌⊎◌, to_ascii_lowercase, lower_char, split_char, ◌≡◌, ◌≢◌, refl, false, none, some, [], ◌∷◌,
}
use gocode.Paths.{FilePath, Component, extension, file_name, unsnoc}
use gocode.Permissions.{
  low, PermissionAction, PermissionRequest, PermissionResponse, PermissionScope, allow, ask,
  allow_once, allow_always, request_for, plan_policy, approve_policy, manual_policy, authorize,
  contains_scope, is_plan_writable,
}
use gocode.Permissions.Gate.{authorize_sound}
use gocode.Permissions.Modes.{
  auto, plan, approve, policy_of, resolve, modes_ordered, only_plan_denies, allow_always_covers,
}

abbrev project : FilePath
project = Component.root_dir ∷ Component.normal "project" ∷ []

abbrev cargo_test : PermissionAction
cargo_test = PermissionAction.command "cargo" ("test" ∷ []) project low

abbrev source_file : PermissionAction
source_file = PermissionAction.write (Component.normal "main.rs" ∷ [])

abbrev yes : PermissionRequest → PermissionResponse
yes request = allow_once

abbrev rewrite_file : PermissionAction
rewrite_file = PermissionAction.write (Component.normal "main.py" ∷ [])

manual_asks : manual_policy [] source_file ≡ ask (request_for source_file)
unfolding manual_policy request_for contains_scope
manual_asks = refl

authorize_sound_example :
    ((manual_policy [] source_file ≡ allow) × (some (request_for source_file) ≡ none))
    ⊎ ((request : PermissionRequest) × (manual_policy [] source_file ≡ ask request)
        × (some (request_for source_file) ≡ some request)
        × (yes request ≢ PermissionResponse.deny))
unfolding authorize manual_policy request_for contains_scope
authorize_sound_example =
    authorize_sound (manual_policy []) yes source_file (some (request_for source_file)) refl

modes_ordered_example :
    (policy_of approve (PermissionScope.write ∷ []) source_file ≡ allow)
    × (policy_of auto (PermissionScope.write ∷ []) source_file ≡ allow)
unfolding policy_of manual_policy request_for contains_scope
modes_ordered_example = modes_ordered (PermissionScope.write ∷ []) source_file refl

only_plan_denies_example :
    (plan ≡ plan) × (is_plan_writable (Component.normal "main.rs" ∷ []) ≡ false)
unfolding policy_of plan_policy is_plan_writable extension file_name unsnoc split_char
    to_ascii_lowercase lower_char gocode.Paths.display
only_plan_denies_example =
    only_plan_denies plan [] source_file
      "plan mode only allows writing documentation or notes files; cannot write main.rs" refl

allow_always_covers_example :
    let after = (resolve (some allow_always) (request_for source_file) []).1 in
    (manual_policy after cargo_test ≡ manual_policy [] cargo_test)
    × (approve_policy after cargo_test ≡ approve_policy [] cargo_test)
unfolding request_for
allow_always_covers_example = allow_always_covers [] (request_for source_file) cargo_test
