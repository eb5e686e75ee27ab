-- ===== src/Terminal/Cuts.antt =====
-- The cuts of a text by bytes in crates/gocode-tui/src/lib.rs: `char_to_byte_index`, and the methods of
-- `String` that are called with its answers. Those panic off the boundaries of characters: `none`.
use Prim.Native.Char.{Char, len_utf8}
use Prim.Native.String.{String, [], ◌∷◌, ◌++◌, count}
use text.Mathlib.TextPositions.{len_utf8-pos}
use text.Mathlib.TextLemmas.{length-nil, length-cons, nil-append, cons-append}
use gocode.Base.{
  ℕ, zero, suc, ◌+◌, ◌-◌, ◌≤◌, ◌≡◌, refl, ap, ◌∙◌, Option, none, some, leb, ◌==◌, if◌then◌else◌,
  take_chars, arith, true, false,
}

infixl 5 ◌>>=◌
abbrev pub ◌>>=◌ {ℓ κ} : {A : Type ℓ} {B : Type κ} → Option A → (A → Option B) → Option B
none >>= f = none
some a >>= f = f a

unfoldable pub char_to_byte_index : String → ℕ → ℕ
char_to_byte_index [] n = 0
char_to_byte_index (c ∷ s) zero = 0
char_to_byte_index (c ∷ s) (suc n) = len_utf8 c + char_to_byte_index s n

abbrev pub put_front : Char → String × String → Option (String × String)
put_front c parts = some (c ∷ parts.0, parts.1)

-- `str::split_at`, with `none` where it panics.
unfoldable pub split_at_byte : ℕ → String → Option (String × String)
split_at_byte n [] = if n == 0 then some ([], []) else none
split_at_byte n (c ∷ s) =
    let rest = split_at_byte (n - len_utf8 c) s in
    if n == 0 then some ([], c ∷ s) else if leb (len_utf8 c) n then rest >>= put_front c else none

-- `String::insert_str`.
unfoldable pub insert_str : ℕ → String → String → Option String
insert_str at text s = do (front, rest) ← split_at_byte at s; some (front ++ (text ++ rest))

-- `String::replace_range` by the empty text.
unfoldable pub remove_range : ℕ → ℕ → String → Option String
remove_range start end s = do
  (front, rest) ← split_at_byte end s
  (kept, _) ← split_at_byte start front
  some (kept ++ rest)

-- `chars().skip(n).collect()`.
unfoldable pub drop_chars : ℕ → String → String
drop_chars zero s = s
drop_chars (suc n) [] = []
drop_chars (suc n) (c ∷ s) = drop_chars n s

split_at_byte-zero : (s : String) → split_at_byte 0 s ≡ some ([], s)
unfolding split_at_byte
split_at_byte-zero [] = refl
split_at_byte-zero (c ∷ s) = refl

split_at_byte-cons :
    (c : Char) (s : String) (n : ℕ)
    → split_at_byte (len_utf8 c + n) (c ∷ s) ≡ (split_at_byte n s >>= put_front c)
unfolding split_at_byte
split_at_byte-cons c s n =
    let (k, wide) = len_utf8-pos c in
    let some_bytes : (len_utf8 c + n == 0) ≡ false = ground (arith, wide) in
    let enough : leb (len_utf8 c) (len_utf8 c + n) ≡ true = ground arith in
    let left : len_utf8 c + n - len_utf8 c ≡ n = omega arith in rw (some_bytes, enough, left) refl

-- The bytes of so many characters end at a boundary: the text is cut after those characters.
pub split_at_byte-char_to_byte_index :
    (s : String) (n : ℕ)
    → split_at_byte (char_to_byte_index s n) s ≡ some (take_chars n s, drop_chars n s)
unfolding char_to_byte_index take_chars drop_chars
split_at_byte-char_to_byte_index [] zero = split_at_byte-zero []
split_at_byte-char_to_byte_index [] (suc n) = split_at_byte-zero []
split_at_byte-char_to_byte_index (c ∷ s) zero = split_at_byte-zero (c ∷ s)
split_at_byte-char_to_byte_index (c ∷ s) (suc n) =
    rw (split_at_byte-cons c s (char_to_byte_index s n), split_at_byte-char_to_byte_index s n) refl

-- The first characters of a text are cut like the text itself.
pub split_at_byte-take :
    (s : String) (n m : ℕ)
    → n ≤ m
    → split_at_byte (char_to_byte_index s n) (take_chars m s)
      ≡ some (take_chars n s, drop_chars n (take_chars m s))
unfolding char_to_byte_index take_chars drop_chars
split_at_byte-take [] zero zero h = split_at_byte-zero []
split_at_byte-take [] zero (suc m) h = split_at_byte-zero []
split_at_byte-take [] (suc n) zero h = absurd (omega (arith, h))
split_at_byte-take [] (suc n) (suc m) h = split_at_byte-zero []
split_at_byte-take (c ∷ s) zero zero h = split_at_byte-zero []
split_at_byte-take (c ∷ s) zero (suc m) h = split_at_byte-zero (c ∷ take_chars m s)
split_at_byte-take (c ∷ s) (suc n) zero h = absurd (omega (arith, h))
split_at_byte-take (c ∷ s) (suc n) (suc m) h =
    rw
      (
        split_at_byte-cons c (take_chars m s) (char_to_byte_index s n),
        split_at_byte-take s n m (omega (arith, h)),
      )
      refl

pub insert_str-at :
    (n : ℕ) (text s : String)
    → insert_str (char_to_byte_index s n) text s ≡ some (take_chars n s ++ (text ++ drop_chars n s))
unfolding insert_str
insert_str-at n text s = rw (split_at_byte-char_to_byte_index s n) refl

pub remove_range-at :
    (n m : ℕ) (s : String)
    → n ≤ m
    → remove_range (char_to_byte_index s n) (char_to_byte_index s m) s
      ≡ some (take_chars n s ++ drop_chars m s)
unfolding remove_range
remove_range-at n m s h = rw (split_at_byte-char_to_byte_index s m, split_at_byte-take s n m h) refl

pub count-take_chars : (n : ℕ) (s : String) → n ≤ count s → count (take_chars n s) ≡ n
unfolding take_chars
count-take_chars zero s h = length-nil
count-take_chars (suc n) [] h = absurd (omega (arith, h, length-nil))
count-take_chars (suc n) (c ∷ s) h = omega (
  arith,
  length-cons c s,
  length-cons c (take_chars n s),
  h,
  count-take_chars n s (omega (arith, h, length-cons c s)),
)

pub count-drop_chars : (n : ℕ) (s : String) → count (drop_chars n s) ≡ count s - n
unfolding drop_chars
count-drop_chars zero s = omega arith
count-drop_chars (suc n) [] = omega (arith, length-nil)
count-drop_chars (suc n) (c ∷ s) = omega (arith, length-cons c s, count-drop_chars n s)

-- What was put before a cut is what is cut off.
pub take_chars-append : (s t : String) → take_chars (count s) (s ++ t) ≡ s
unfolding take_chars
take_chars-append [] t = refl
take_chars-append (c ∷ s) t =
    rw (length-cons c s, cons-append c s t) (ap (λ r. c ∷ r) (take_chars-append s t))

pub drop_chars-append : (s t : String) → drop_chars (count s) (s ++ t) ≡ t
unfolding drop_chars
drop_chars-append [] t = nil-append t
drop_chars-append (c ∷ s) t = rw (length-cons c s, cons-append c s t) (drop_chars-append s t)

pub take-drop_chars : (n : ℕ) (s : String) → take_chars n s ++ drop_chars n s ≡ s
unfolding take_chars drop_chars
take-drop_chars zero s = nil-append s
take-drop_chars (suc n) [] = refl
take-drop_chars (suc n) (c ∷ s) =
    cons-append c (take_chars n s) (drop_chars n s) ∙ ap (λ r. c ∷ r) (take-drop_chars n s)
