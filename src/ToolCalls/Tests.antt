-- ===== src/ToolCalls/Tests.antt =====
-- The assembler at concrete fragments.
use gocode.Base.{◌⊎◌, false, ℕ, zero, suc, ◌≡◌, refl, true, none, some, [], ◌∷◌, arith}
use gocode.Base.SortedMap.{lookup, insert}
use gocode.ToolCalls.{ToolCallDelta, Assembler, apply, is_oversized, extended, exceeds}
use gocode.ToolCalls.Budget.{IsWithin, apply-IsSafe}
use gocode.ToolCalls.Fragments.{merged, apply-merged}

abbrev first_part : ToolCallDelta
first_part = record { index = 0; id = some "c"; name_delta = some "read_"; arguments_delta = none }

abbrev second_part : ToolCallDelta
second_part = record { index = 0; id = none; name_delta = some "file"; arguments_delta = some "{}" }

abbrev after_first : Assembler
after_first = (0, record { id = some "c"; name = "read_"; arguments = "" }) ∷ []

abbrev after_second : Assembler
after_second = (0, record { id = some "c"; name = "read_file"; arguments = "{}" }) ∷ []

-- A full assembler, in which every call has the index of its position.
abbrev full : ℕ → ℕ → Assembler
full zero position = []
full (suc n) position =
    (position, record { id = none; name = ""; arguments = "" }) ∷ full n (suc position)

apply-IsSafe_example :
    IsWithin (apply first_part []).1
    × (((apply first_part []).0 ≡ true) ⊎ ((apply first_part []).1 ≡ []))
apply-IsSafe_example =
    apply-IsSafe first_part [] (record { sorted = tt; calls = omega arith; fields = tt })

-- A call too many is not taken.
refuses_one_more : (apply (record first_part { index = 40 }) (full 32 0)).0 ≡ false
unfolding apply lookup
refuses_one_more = refl

apply-merged_example : apply (merged first_part second_part) [] ≡ (true, after_second)
unfolding apply is_oversized exceeds extended insert lookup
apply-merged_example =
    apply-merged first_part second_part [] after_first after_second tt refl refl refl
