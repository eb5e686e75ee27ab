-- ===== src/Process/Buffer/Bounds.antt =====
-- What the buffer of crates/gocode-tools/src/process.rs keeps: never more than its limit twice, and
-- all of an output within the limit.
use Prim.Native.Char.{Char, len_utf8}
use Prim.Native.String.{String, [], ◌∷◌, ◌++◌, len}
use text.Mathlib.TextPositions.{len-append}
use text.Mathlib.TextLemmas.{append-nil, append_assoc, nil-append}
use gocode.Base.{
  ℕ, zero, suc, ◌+◌, ◌-◌, ◌≤◌, ◌<◌, ◌≡◌, refl, ltb, leb, true, false, List, Bool-cases, All, format,
  if_holds, subst, ◌↔◌, if◌then◌else◌, arith, inl, inr, ap, ltb→lt, ltb-false→le, leb→le,
  leb-false→lt,
}
use gocode.Process.Buffer.{
  BoundedBuffer, new_buffer, split_bytes, cut_bytes, push_tail, push, push_all, finish,
}
use Prim.Native.String.len as Len

len_empty : len [] ≡ 0
len_empty = Len.nil

len_cons : (c : Char) (s : String) → len (c ∷ s) ≡ len_utf8 c + len s
len_cons c s = Len.cons c s

split_bytes-front : (n : ℕ) (s : String) → len (split_bytes n s).0 ≤ n
unfolding split_bytes
split_bytes-front n [] = omega (arith, len_empty)
split_bytes-front n (c ∷ s) =
    if_holds (λ (p : String × String). len p.0 ≤ n) (leb (len_utf8 c) n)
      (λ fits. omega (
        arith,
        leb→le (len_utf8 c) n fits,
        len_cons c (split_bytes (n - len_utf8 c) s).0,
        split_bytes-front (n - len_utf8 c) s,
      ))
      (λ _. omega (arith, len_empty))

len-cut_bytes : (n : ℕ) (s : String) → len (cut_bytes n s) ≤ len s - n
unfolding cut_bytes
len-cut_bytes zero s = omega arith
len-cut_bytes (suc n) [] = omega (arith, len_empty)
len-cut_bytes (suc n) (c ∷ s) = omega (arith, len_cons c s, len-cut_bytes (suc n - len_utf8 c) s)

-- What a buffer of a limit holds of the text that was written to it.
pub record Keeps (limit : ℕ) (written : String) (b : BoundedBuffer) : Type 0 where
  pub same_limit : b.limit ≡ limit
  pub short_head : len b.head ≤ limit
  pub short_tail : len b.tail ≤ limit
  pub whole : b.truncated ≡ false → b.head ≡ written
  pub cut : b.truncated ≡ true → limit < len written

len-tail :
    (limit : ℕ) (tail : String)
    → len (if ltb limit (len tail) then cut_bytes (len tail - limit) tail else tail) ≤ limit
len-tail limit tail =
    if_holds (λ (t : String). len t ≤ limit) (ltb limit (len tail))
      (λ over. omega (arith, ltb→lt limit (len tail) over, len-cut_bytes (len tail - limit) tail))
      (λ within. omega (arith, ltb-false→le limit (len tail) within))

-- A chunk goes to the tail of a buffer whose head is final.
push_tail-Keeps :
    (limit : ℕ) (written chunk : String) (b : BoundedBuffer)
    → b.limit ≡ limit
    → len b.head ≤ limit
    → b.truncated ≡ true
    → limit < len written
    → Keeps limit written (push_tail chunk b)
unfolding push_tail
push_tail-Keeps limit written chunk b same head cut over = record {
  same_limit = same;
  short_head = head;
  short_tail =
      subst (λ n. len (push_tail chunk b).tail ≤ n) same (len-tail b.limit (b.tail ++ chunk));
  whole = λ e. cc (e, cut);
  cut = λ _. over;
}

push-Keeps :
    (limit : ℕ) (written chunk : String) (b : BoundedBuffer)
    → 0 < len chunk
    → Keeps limit written b
    → Keeps limit (written ++ chunk) (push chunk b)
unfolding push
push-Keeps limit written chunk b some_text keeps =
    let grown = len-append written chunk in
    if_holds (Keeps limit (written ++ chunk)) (ltb (len b.head) b.limit)
      (λ room.
        if_holds (Keeps limit (written ++ chunk)) (leb (len chunk) (b.limit - len b.head))
          (λ fits. record {
            same_limit = keeps.same_limit;
            short_head = omega (
              arith,
              len-append b.head chunk,
              keeps.same_limit,
              ltb→lt (len b.head) b.limit room,
              leb→le (len chunk) (b.limit - len b.head) fits,
            );
            short_tail = keeps.short_tail;
            whole = λ e. ap (λ s. s ++ chunk) (keeps.whole e);
            cut = λ e. omega (arith, grown, keeps.cut e);
          })
          (λ over.
            push_tail-Keeps limit (written ++ chunk) _ _ keeps.same_limit
              (omega (
                arith,
                len-append b.head (split_bytes (b.limit - len b.head) chunk).0,
                split_bytes-front (b.limit - len b.head) chunk,
                keeps.same_limit,
                ltb→lt (len b.head) b.limit room,
              ))
              refl
              (elim (Bool-cases b.truncated) [
                | inl e ↦ omega (arith, grown, keeps.cut e)
                | inr e ↦ omega (
                  arith,
                  grown,
                  ap len (keeps.whole e),
                  keeps.same_limit,
                  leb-false→lt (len chunk) (b.limit - len b.head) over,
                )
              ])))
      (λ full.
        push_tail-Keeps limit (written ++ chunk) chunk (record b { truncated = true })
          keeps.same_limit keeps.short_head refl
          (elim (Bool-cases b.truncated) [
            | inl e ↦ omega (arith, grown, keeps.cut e)
            | inr e ↦ omega (
              arith,
              grown,
              some_text,
              ap len (keeps.whole e),
              keeps.same_limit,
              ltb-false→le (len b.head) b.limit full,
            )
          ]))

push_all-Keeps :
    (limit : ℕ) (written : String) (chunks : List String) (b : BoundedBuffer)
    → All (λ chunk. 0 < len chunk) chunks
    → Keeps limit written b
    → Keeps limit (written ++ format chunks) (push_all chunks b)
unfolding push_all
push_all-Keeps limit written List.[] b some_text keeps = rw (append-nil written) keeps
push_all-Keeps limit written (List.◌∷◌ chunk chunks) b some_text keeps =
    rw (← append_assoc written chunk (format chunks)) (
      push_all-Keeps limit (written ++ chunk) chunks (push chunk b) some_text.1
        (push-Keeps limit written chunk b some_text.0 keeps))

new_buffer-Keeps : (limit : ℕ) → Keeps limit "" (new_buffer limit)
unfolding new_buffer
new_buffer-Keeps limit = record {
  same_limit = refl;
  short_head = omega (arith, len_empty);
  short_tail = omega (arith, len_empty);
  whole = λ e. refl;
  cut = λ e. cc e;
}

-- The head and the tail that a buffer keeps of an output, in chunks that are not empty, each stay within
-- the limit, and the output is given back whole and unmarked exactly if it is within the limit.
pub push_all-IsBounded :
    (limit : ℕ) (chunks : List String)
    → All (λ chunk. 0 < len chunk) chunks
    → (len (push_all chunks (new_buffer limit)).head ≤ limit)
      × (len (push_all chunks (new_buffer limit)).tail ≤ limit)
      × ((len (format chunks) ≤ limit)
          ↔ (finish (push_all chunks (new_buffer limit)) ≡ (format chunks, false)))
unfolding new_buffer finish
push_all-IsBounded limit chunks some_text =
    let b = push_all chunks (new_buffer limit) in
    let keeps : Keeps limit (format chunks) b =
      subst (λ s. Keeps limit s b) (nil-append (format chunks))
        (push_all-Keeps limit "" chunks (new_buffer limit) some_text (new_buffer-Keeps limit)) in
    (
      keeps.short_head,
      keeps.short_tail,
      elim (Bool-cases b.truncated) [
        | inl e ↦ rw e (λ within. absurd (omega (arith, within, keeps.cut e)), λ same. cc same)
        | inr e ↦ rw e (
          λ _. ap (λ (s : String). (s, false)) (keeps.whole e),
          λ same. omega (arith, keeps.short_head, ap len (keeps.whole e)),
        )
      ],
    )
