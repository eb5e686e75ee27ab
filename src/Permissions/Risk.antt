-- ===== src/Permissions/Risk.antt =====
-- `classify_command_risk` of crates/gocode-tools/src/permissions.rs, with its tables.
use gocode.Base.{
  ◌≡◌, Bool, true, false, ◌&&◌, ◌||◌, List, [], ◌∷◌, String, str_eq, starts_with, if◌then◌else◌,
  join, any, is_empty, contains, to_ascii_lowercase, ◌⊎◌,
}
use gocode.Permissions.{CommandRisk, low, medium, high}

abbrev high_risk_programs : List String
high_risk_programs =
    "rm" ∷ "del" ∷ "erase" ∷ "rmdir" ∷ "format" ∷ "shutdown" ∷ "reboot" ∷ "diskpart" ∷ "sudo" ∷ "su"
    ∷ "chmod" ∷ "chown" ∷ "curl" ∷ "wget" ∷ "ssh" ∷ "scp" ∷ "git" ∷ []

abbrev high_risk_patterns : List String
high_risk_patterns =
    "rm -rf" ∷ "rm -r" ∷ "-force" ∷ "--force" ∷ "reset --hard" ∷ "push" ∷ "checkout" ∷ "clean -f"
    ∷ "> /dev" ∷ "format " ∷ []

abbrev low_risk_programs : List String
low_risk_programs =
    "cargo" ∷ "npm" ∷ "pnpm" ∷ "yarn" ∷ "go" ∷ "pytest" ∷ "python" ∷ "python3" ∷ "node" ∷ "make"
    ∷ "git-status" ∷ []

abbrev low_risk_arg_hints : List String
low_risk_arg_hints =
    "test" ∷ "check" ∷ "build" ∷ "fmt" ∷ "lint" ∷ "vet" ∷ "status" ∷ "diff" ∷ "--version" ∷ "-v"
    ∷ []

-- `TABLE.iter().any(|candidate| text == *candidate)`
unfoldable pub is_one_of : List String → String → Bool
is_one_of table text = any (str_eq text) table

-- `TABLE.iter().any(|pattern| text.contains(pattern))`
unfoldable pub has_one_of : List String → String → Bool
has_one_of table text = any (contains text) table

-- The `git` subcommands that only read.
unfoldable pub is_git_inspection : String → Bool
is_git_inspection joined_args =
    starts_with joined_args "status"
    || starts_with joined_args "diff"
    || starts_with joined_args "log"
    || starts_with joined_args "show"

unfoldable pub classify_command_risk : String → List String → Bool → CommandRisk
classify_command_risk program args shell =
    let program_lower = to_ascii_lowercase program in
    let joined_args = to_ascii_lowercase (join " " args) in
    if shell
    then high
    else if str_eq program_lower "git"
    then (if is_git_inspection joined_args then low else high)
    else if is_one_of high_risk_programs program_lower || has_one_of high_risk_patterns joined_args
    then high
    else if is_one_of low_risk_programs program_lower
        && (is_empty args || has_one_of low_risk_arg_hints joined_args)
    then low
    else medium

-- An inspection: of git one that only reads; else of a known program, with no pattern of a high risk and
-- with no arguments or the hint of a harmless task in them.
abbrev pub IsInspection : String → List String → Type 0
IsInspection program args =
    let joined_args = to_ascii_lowercase (join " " args) in
    ((str_eq (to_ascii_lowercase program) "git" ≡ true) × (is_git_inspection joined_args ≡ true))
    ⊎ ((is_one_of high_risk_programs (to_ascii_lowercase program) ≡ false)
        × (has_one_of high_risk_patterns joined_args ≡ false)
        × (is_one_of low_risk_programs (to_ascii_lowercase program) ≡ true)
        × ((is_empty args ≡ true) ⊎ (has_one_of low_risk_arg_hints joined_args ≡ true)))
