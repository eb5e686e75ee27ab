-- ===== src/ToolCalls/Budget.antt =====
-- The byte and call budgets of the assembler.
use Prim.Native.String.{len}
use text.Mathlib.TextPositions.{len-append}
use gocode.Base.{
  true, ◌⊎◌, ℕ, suc, ap, ◌+◌, ◌≤◌, ◌≡◌, refl, false, Option, none, some, [], ◌∷◌, arith, String,
  length, All, is_some, leb, not, ◌&&◌, Bool-cases, inl, inr, unwrap_or, Option-cases,
}
use gocode.Base.SortedMap.{lookup, insert, IsSorted, IsSorted-insert, length-insert, All-insert}
use gocode.ToolCalls.{
  ToolCallDelta, PendingCall, Assembler, default_call, max_pending_calls, max_field_bytes,
  is_oversized, extended, apply, exceeds, push_str, or_else, name_bytes, arguments_bytes, Formats,
  finish_from, finish_call,
}

abbrev id_bytes : Option String → ℕ
id_bytes none = 0
id_bytes (some id) = len id

-- Every field of a call fits the byte budget.
pub record Fits (call : PendingCall) : Type 0 where
  pub id : id_bytes call.id ≤ max_field_bytes
  pub name : len call.name ≤ max_field_bytes
  pub arguments : len call.arguments ≤ max_field_bytes

-- What holds of an assembler at all times.
pub record IsWithin (pending : Assembler) : Type 0 where
  pub sorted : IsSorted pending
  pub calls : length pending ≤ max_pending_calls
  pub fields : All (λ e. Fits e.1) pending

lookup-Fits :
    (k : ℕ) (pending : Assembler) (call : PendingCall)
    → All (λ e. Fits e.1) pending
    → lookup k pending ≡ some call
    → Fits call
unfolding lookup
lookup-Fits k [] call h e = cc
lookup-Fits k ((j, c) ∷ pending) call h e = ground (arith, lookup-Fits k pending call h.1)

default-Fits : Fits default_call
default-Fits = omega arith

len-push_str : (s : String) (t : Option String) → len (push_str s t) ≡ len s + id_bytes t
len-push_str s none = omega arith
len-push_str s (some t) = len-append s t

pub bytes_default :
    (current : Option PendingCall)
    → let c = unwrap_or default_call current in
      (name_bytes current ≡ len c.name) × (arguments_bytes current ≡ len c.arguments)
bytes_default none = (refl, refl)
bytes_default (some c) = (refl, refl)

pushed_fits :
    (s : String) (t : Option String)
    → len s ≤ max_field_bytes
    → exceeds (len s) t ≡ false
    → len (push_str s t) ≤ max_field_bytes
unfolding exceeds
pushed_fits s none h e = h
pushed_fits s (some t) h e = ground (arith, len-append s t)

replaced_fits :
    (a b : Option String)
    → id_bytes b ≤ max_field_bytes
    → exceeds 0 a ≡ false
    → id_bytes (or_else a b) ≤ max_field_bytes
unfolding exceeds
replaced_fits a b h e = ground arith

extended-Fits :
    (delta : ToolCallDelta) (current : Option PendingCall)
    → Fits (unwrap_or default_call current)
    → is_oversized delta current ≡ false
    → Fits (extended delta (unwrap_or default_call current))
unfolding is_oversized extended
extended-Fits delta current h e =
    let c = unwrap_or default_call current in
    let (names, arguments) = bytes_default current in
    record {
      id = replaced_fits delta.id c.id h.id (ground arith);
      name = pushed_fits c.name delta.name_delta h.name (ground (arith, names));
      arguments =
          pushed_fits c.arguments delta.arguments_delta h.arguments (ground (arith, arguments));
    }

insert-IsWithin :
    (k : ℕ) (call : PendingCall) (pending : Assembler)
    → IsWithin pending
    → Fits call
    → (not (is_some (lookup k pending)) && leb max_pending_calls (length pending)) ≡ false
    → IsWithin (insert k call pending)
insert-IsWithin k call pending h fits room = record {
  sorted = IsSorted-insert k call pending h.sorted;
  calls = ground (arith, length-insert k call pending h.sorted);
  fields = All-insert Fits k call pending fits h.fields;
}

current-Fits :
    (k : ℕ) (pending : Assembler)
    → All (λ e. Fits e.1) pending
    → Fits (unwrap_or default_call (lookup k pending))
current-Fits k pending h = elim (Option-cases (lookup k pending)) [
  | inl missing ↦ rw missing default-Fits
  | inr (call, found) ↦ rw found (lookup-Fits k pending call h found)
]

pub apply-IsWithin :
    (delta : ToolCallDelta) (pending : Assembler)
    → IsWithin pending
    → IsWithin (apply delta pending).1
unfolding apply
apply-IsWithin delta pending h =
    let current = lookup delta.index pending in
    elim (Bool-cases (not (is_some current) && leb max_pending_calls (length pending))) [
      | inl full ↦ rw full h
      | inr room ↦ rw room (elim (Bool-cases (is_oversized delta current)) [
        | inl large ↦ rw large h
        | inr small ↦ rw small (
            insert-IsWithin delta.index _ pending h
              (extended-Fits delta current (current-Fits delta.index pending h.fields) small) room)
      ])
    ]

apply_rejected :
    (delta : ToolCallDelta) (pending : Assembler)
    → (apply delta pending).0 ≡ false
    → (apply delta pending).1 ≡ pending
unfolding apply
apply_rejected delta pending h = ground arith

-- A fragment leaves the assembler within its budgets: at most 32 pending calls, in the order of their
-- indices, and no field over 64 KiB. A fragment that is not taken leaves it as it was.
pub apply-IsSafe :
    (delta : ToolCallDelta) (pending : Assembler)
    → IsWithin pending
    → IsWithin (apply delta pending).1
      × (((apply delta pending).0 ≡ true) ⊎ ((apply delta pending).1 ≡ pending))
apply-IsSafe delta pending h = (
  apply-IsWithin delta pending h,
  elim (Bool-cases (apply delta pending).0) [
    | inl taken ↦ inl taken
    | inr rejected ↦ inr (apply_rejected delta pending rejected)
  ],
)

-- The calls of an assembler are no more than its pending calls, under the same byte budget.
pub finish_from-IsWithin :
    {V : Type 0} (formats : Formats V) (position : ℕ) (pending : Assembler)
    → All (λ e. Fits e.1) pending
    → (length (finish_from formats position pending) ≡ length pending)
      × All (λ call. len call.name ≤ max_field_bytes) (finish_from formats position pending)
unfolding finish_from finish_call
finish_from-IsWithin formats position [] h = (refl, tt)
finish_from-IsWithin formats position ((index, call) ∷ pending) (fits, h) =
    let (size, rest) = finish_from-IsWithin formats (suc position) pending h in
    (ap suc size, (fits.name, rest))
