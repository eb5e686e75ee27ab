-- ===== src/ToolCalls/Fragments.antt =====
-- Two fragments of one call in crates/gocode-agent/src/toolcalls.rs are as good as one.
use Prim.Native.String
use Prim.Native.String.{len}
use text.Mathlib.TextLemmas.{append_assoc as text_append_assoc}
use text.Mathlib.TextPositions.{len-append}
use gocode.Base.{
  ◌≡◌, refl, ap, subst, ◌∙◌, true, false, ◌&&◌, not, Option, none, some, arith, String, length,
  is_some, leb, unwrap_or,
}
use gocode.Base.SortedMap.{lookup, insert, IsSorted, lookup-insert, insert-insert}
use gocode.ToolCalls.{
  ToolCallDelta, PendingCall, Assembler, default_call, max_pending_calls, is_oversized, extended,
  apply, exceeds, push_str, or_else,
}
use gocode.ToolCalls.Budget.{bytes_default}

abbrev concat_deltas : Option String → Option String → Option String
concat_deltas none b = b
concat_deltas (some a) none = some a
concat_deltas (some a) (some b) = some (String.◌++◌ a b)

-- One fragment that says what two fragments of the same call say.
abbrev pub merged : ToolCallDelta → ToolCallDelta → ToolCallDelta
merged first second = record {
  index = first.index;
  id = or_else second.id first.id;
  name_delta = concat_deltas first.name_delta second.name_delta;
  arguments_delta = concat_deltas first.arguments_delta second.arguments_delta;
}

-- What a fragment that was taken shows.
record Took (delta : ToolCallDelta) (pending pending' : Assembler) : Type 0 where
  room :
      (not (is_some (lookup delta.index pending)) && leb max_pending_calls (length pending)) ≡ false
  small : is_oversized delta (lookup delta.index pending) ≡ false
  result :
      pending'
      ≡ insert delta.index
          (extended delta (unwrap_or default_call (lookup delta.index pending)))
          pending

Took-of_apply :
    (delta : ToolCallDelta) (pending pending' : Assembler)
    → apply delta pending ≡ (true, pending')
    → Took delta pending pending'
unfolding apply
Took-of_apply delta pending pending' h = record {
  room = ground arith;
  small = ground arith;
  result = ground arith;
}

apply_of_Took :
    (delta : ToolCallDelta) (pending pending' : Assembler)
    → Took delta pending pending'
    → apply delta pending ≡ (true, pending')
unfolding apply
apply_of_Took delta pending pending' t = ground arith

push_str-concat_deltas :
    (s : String) (a b : Option String) → push_str (push_str s a) b ≡ push_str s (concat_deltas a b)
push_str-concat_deltas s none b = refl
push_str-concat_deltas s (some a) none = refl
push_str-concat_deltas s (some a) (some b) = text_append_assoc s a b

or_else_assoc : (a b c : Option String) → or_else a (or_else b c) ≡ or_else (or_else a b) c
or_else_assoc none b c = refl
or_else_assoc (some a) b c = refl

extended-merged :
    (first second : ToolCallDelta) (call : PendingCall)
    → extended second (extended first call) ≡ extended (merged first second) call
unfolding extended
extended-merged first second call = cc (
  or_else_assoc second.id first.id call.id,
  push_str-concat_deltas call.name first.name_delta second.name_delta,
  push_str-concat_deltas call.arguments first.arguments_delta second.arguments_delta,
)

exceeds-concat_deltas :
    (s : String) (a b : Option String)
    → exceeds (len s) a ≡ false
    → exceeds (len (push_str s a)) b ≡ false
    → exceeds (len s) (concat_deltas a b) ≡ false
unfolding exceeds
exceeds-concat_deltas s none b h k = k
exceeds-concat_deltas s (some a) none h k = h
exceeds-concat_deltas s (some a) (some b) h k = ground (arith, len-append s a, len-append a b)

merged_small :
    (first second : ToolCallDelta) (current : Option PendingCall)
    → is_oversized first current ≡ false
    → is_oversized second (some (extended first (unwrap_or default_call current))) ≡ false
    → is_oversized (merged first second) current ≡ false
unfolding is_oversized extended
merged_small first second current h k =
    let c = unwrap_or default_call current in
    ground (
      arith,
      bytes_default current,
      exceeds-concat_deltas c.name first.name_delta second.name_delta,
      exceeds-concat_deltas c.arguments first.arguments_delta second.arguments_delta,
    )

lookup_taken :
    (first second : ToolCallDelta) (p p' : Assembler)
    → second.index ≡ first.index
    → Took first p p'
    → lookup second.index p' ≡ some (extended first (unwrap_or default_call (lookup first.index p)))
lookup_taken first second p p' same t =
    let call = extended first (unwrap_or default_call (lookup first.index p)) in
    rw (t.result, same) (ground (arith, lookup-insert first.index first.index call p))

-- Two fragments of the same call that are taken one after the other do what one fragment would do that
-- carries both texts.
pub apply-merged :
    (first second : ToolCallDelta) (p p' p'' : Assembler)
    → IsSorted p
    → second.index ≡ first.index
    → apply first p ≡ (true, p')
    → apply second p' ≡ (true, p'')
    → apply (merged first second) p ≡ (true, p'')
apply-merged first second p p' p'' sorted same h k =
    let t = Took-of_apply first p p' h in
    let u = Took-of_apply second p' p'' k in
    let call = unwrap_or default_call (lookup first.index p) in
    let found = lookup_taken first second p p' same t in
    apply_of_Took (merged first second) p p'' (record {
      room = t.room;
      small =
          merged_small first second (lookup first.index p) t.small
            (subst (λ c. is_oversized second c ≡ false) found u.small);
      result =
          u.result
          ∙ ap (λ c. insert second.index (extended second (unwrap_or default_call c)) p') found
          ∙ ap (λ i. insert i (extended second (extended first call)) p') same
          ∙ ap (insert first.index (extended second (extended first call))) t.result
          ∙ insert-insert first.index (extended first call) (extended second (extended first call))
              p sorted
          ∙ ap (λ c. insert first.index c p) (extended-merged first second call);
    })
