-- ===== src/Process/Redact.antt =====
-- `redact_secrets` of crates/gocode-tools/src/process.rs. A position in a text is the rest of it.
use Prim.Native.String
use Prim.Native.String.{String, [], ◌∷◌}
use gocode.Base.{
  ℕ, zero, suc, ◌≡◌, refl, List, if◌then◌else◌, strip_prefix, is_some, to_ascii_lowercase,
  is_whitespace,
}

-- `chars().count()`.
unfoldable pub char_count : String → ℕ
char_count [] = 0
char_count (c ∷ s) = suc (char_count s)

-- The first characters, and the rest.
unfoldable pub split_at : ℕ → String → String × String
split_at zero s = ([], s)
split_at (suc n) [] = ([], [])
split_at (suc n) (c ∷ s) = let (front, rest) = split_at n s in (c ∷ front, rest)

-- The whitespace at the start, and the rest.
unfoldable pub split_blanks : String → String × String
unfolding is_whitespace
split_blanks [] = ([], [])
split_blanks (c ∷ s) =
    let (front, rest) = split_blanks s in if is_whitespace c then (c ∷ front, rest) else ([], c ∷ s)

-- What follows a value, which ends at whitespace.
unfoldable pub after_value : String → String
unfolding is_whitespace
after_value [] = []
after_value (c ∷ s) = let rest = after_value s in if is_whitespace c then c ∷ s else rest

-- The loop of `redact_after`; each round takes a character at least.
unfoldable pub redact_rounds : ℕ → String → String → String
unfolding strip_prefix to_ascii_lowercase split_at split_blanks after_value char_count
redact_rounds zero marker value = value
redact_rounds (suc fuel) marker [] = []
redact_rounds (suc fuel) marker (c ∷ value) =
    let (name, rest) = split_at (char_count marker) (c ∷ value) in
    let (blanks, secret) = split_blanks rest in
    let hidden = redact_rounds fuel marker (after_value secret) in
    let kept = redact_rounds fuel marker value in
    if is_some (strip_prefix marker (to_ascii_lowercase (c ∷ value)))
    then String.◌++◌ name (String.◌++◌ blanks (String.◌++◌ "[REDACTED]" hidden))
    else c ∷ kept

unfoldable pub redact_after : String → String → String
unfolding redact_rounds
redact_after marker value = redact_rounds (char_count value) marker value

abbrev pub secret_markers : List String
secret_markers = List.◌∷◌ "token=" (
    List.◌∷◌ "token:" (
      List.◌∷◌ "password=" (
        List.◌∷◌ "password:" (
          List.◌∷◌ "secret=" (
            List.◌∷◌ "secret:" (
              List.◌∷◌ "api_key=" (
                List.◌∷◌ "api_key:"
                  (List.◌∷◌ "authorization: bearer " (List.◌∷◌ "cookie:" List.[])))))))))

unfoldable pub redact_all : List String → String → String
unfolding redact_after
redact_all List.[] value = value
redact_all (List.◌∷◌ marker markers) value = redact_all markers (redact_after marker value)

unfoldable pub redact_secrets : String → String
unfolding redact_all
redact_secrets output = redact_all secret_markers output

redacts : redact_secrets "TOKEN= abc x secret:y" ≡ "TOKEN= [REDACTED] x secret:[REDACTED]"
unfolding redact_secrets
redacts = refl
