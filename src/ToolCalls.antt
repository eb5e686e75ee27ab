-- ===== src/ToolCalls.antt =====
-- crates/gocode-agent/src/toolcalls.rs: assembling streamed fragments into complete tool calls.
pub mod Budget
pub mod Fragments
mod Tests
use Prim.Native.String
use Prim.Native.String.{len}
use gocode.Base.{
  ℕ, suc, ◌+◌, ◌*◌, Bool, true, false, ◌&&◌, ◌||◌, not, Option, none, some, List, [], ◌∷◌, String,
  str_eq, if◌then◌else◌, ltb, leb, length, is_some, is_some_and, unwrap_or, trim,
}
use gocode.Base.SortedMap.{SortedMap, lookup, insert}
use gocode.Contract.{ToolCall}

abbrev pub max_pending_calls : ℕ
max_pending_calls = 32

abbrev pub max_field_bytes : ℕ
max_field_bytes = 64 * 1024

-- `ToolCallDelta` of crates/gocode-core/src/lib.rs.
pub record ToolCallDelta : Type 0 where
  pub index : ℕ
  pub id : Option String
  pub name_delta : Option String
  pub arguments_delta : Option String

pub record PendingCall : Type 0 where
  pub id : Option String
  pub name : String
  pub arguments : String

abbrev pub default_call : PendingCall
default_call = record { id = none; name = ""; arguments = "" }

-- `ToolCallAssembler`: its field `pending`.
abbrev pub Assembler : Type 0
Assembler = SortedMap PendingCall

-- The bytes that a field has already: none without a current call.
abbrev pub name_bytes : Option PendingCall → ℕ
name_bytes none = 0
name_bytes (some call) = len call.name

abbrev pub arguments_bytes : Option PendingCall → ℕ
arguments_bytes none = 0
arguments_bytes (some call) = len call.arguments

-- Whether a text, if there is one, passes the byte budget after `bytes`.
unfoldable pub exceeds : ℕ → Option String → Bool
exceeds bytes none = false
exceeds bytes (some text) = ltb max_field_bytes (bytes + len text)

unfoldable pub is_oversized : ToolCallDelta → Option PendingCall → Bool
is_oversized delta current =
    exceeds 0 delta.id
    || exceeds (name_bytes current) delta.name_delta
    || exceeds (arguments_bytes current) delta.arguments_delta

abbrev pub or_else : Option String → Option String → Option String
or_else (some a) b = some a
or_else none b = b

abbrev pub push_str : String → Option String → String
push_str s none = s
push_str s (some t) = String.◌++◌ s t

unfoldable pub extended : ToolCallDelta → PendingCall → PendingCall
extended delta entry = record {
  id = or_else delta.id entry.id;
  name = push_str entry.name delta.name_delta;
  arguments = push_str entry.arguments delta.arguments_delta;
}

-- `ToolCallAssembler::apply`: whether the fragment was taken, and the assembler after it.
unfoldable pub apply : ToolCallDelta → Assembler → Bool × Assembler
apply delta pending =
    let current = lookup delta.index pending in
    if not (is_some current) && leb max_pending_calls (length pending)
    then (false, pending)
    else if is_oversized delta current
    then (false, pending)
    else (true, insert delta.index (extended delta (unwrap_or default_call current)) pending)

-- What serde_json does with the text of the arguments, and how `call-{position}` is written.
pub record Formats (V : Type 0) : Type 0 where
  pub from_str : String → Option V
  pub empty_object : V
  pub call_label : ℕ → String

module _ {V : Type 0} (formats : Formats V) where
  unfoldable pub finish_call : ℕ → PendingCall → ToolCall V
  finish_call position call = record {
    id = unwrap_or (formats.call_label position) call.id;
    name = call.name;
    arguments =
        if str_eq (trim call.arguments) ""
        then formats.empty_object
        else unwrap_or formats.empty_object (formats.from_str call.arguments);
  }

  unfoldable pub finish_from : ℕ → Assembler → List (ToolCall V)
  finish_from position [] = []
  finish_from position ((index, call) ∷ pending) =
      finish_call position call ∷ finish_from (suc position) pending

  -- `ToolCallAssembler::finish`.
  unfoldable pub finish : Assembler → List (ToolCall V)
  unfolding finish_from
  finish pending = finish_from 0 pending
