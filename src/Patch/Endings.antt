-- ===== src/Patch/Endings.antt =====
-- Splitting a file into lines and joining them again, in crates/gocode-tools/src/patch.rs.
use Prim.Native.Char.{Char, code}
use Prim.Native.String.{count}
use text.Mathlib.TextEquality.{Char-path}
use text.Mathlib.TextLemmas.{
  append_assoc as text-append_assoc, append-nil as text-append-nil, length-cons, length-nil,
}
use gocode.Base.{
  ◌≡◌, refl, sym, ap, subst, ◌∙◌, Bool, true, false, ◌&&◌, ◌||◌, not, List, [], ◌∷◌, String, str_eq,
  eq_iff, split_char, join, ◌==◌, if◌then◌else◌, if_holds, is_empty, arith, Bool-cases, inl, inr,
  extend, ◌⊎◌,
}
use gocode.Patch.Content.{
  starts_line, has_crlf, replace_crlf, ends_line, without_end, split_content, join_content,
}
use Prim.Native.String
use Prim.Native.String.append

-- A text with each line feed written as a given line ending.
unfoldable pub with_ending : String → String → String
with_ending e String.[] = ""
with_ending e (String.◌∷◌ c s) =
    let rest = with_ending e s in if code c == 10 then String.◌++◌ e rest else String.◌∷◌ c rest

abbrev line_feed : Char
line_feed = "\n"

is_line_feed : (c : Char) → code c == 10 ≡ true → c ≡ line_feed
is_line_feed c h = Char-path c line_feed (ground (arith, h))

join-extend :
    (e : String) (newline : Bool) (c : Char) (parts : List String)
    → is_empty parts ≡ false
    → (join e (extend newline c parts)
        ≡ (if newline then String.◌++◌ e (join e parts) else String.◌∷◌ c (join e parts)))
      × (is_empty (extend newline c parts) ≡ false)
join-extend e newline c [] h = cc h
join-extend e true c (p ∷ ps) h = (append.nil _, refl)
join-extend e false c (p ∷ []) h = (refl, refl)
join-extend e false c (p ∷ q ∷ ps) h = (append.cons c p _, refl)

join-split_char :
    (e s : String)
    → (join e (split_char 10 s) ≡ with_ending e s) × (is_empty (split_char 10 s) ≡ false)
unfolding split_char with_ending
join-split_char e String.[] = (refl, refl)
join-split_char e (String.◌∷◌ c s) =
    let (same, some_parts) = join-split_char e s in
    let (step, nonempty) = join-extend e (code c == 10) c (split_char 10 s) some_parts in
    (step ∙ rw same, nonempty)

not_empty : (d : Char) (s : String) → str_eq (String.◌∷◌ d s) "" ≡ false
not_empty d s = elim (Bool-cases (str_eq (String.◌∷◌ d s) "")) [
  | inl e ↦
      let same : String.◌∷◌ d s ≡ "" = (eq_iff (String.◌∷◌ d s) "").0 e in
      absurd (omega (arith, length-cons d s, ap count same, length-nil))
  | inr e ↦ e
]

cons-end :
    (c : Char) (ends : Bool) (cut rest : String)
    → rest ≡ (if ends then String.◌++◌ cut "\n" else cut)
    → String.◌∷◌ c rest ≡ (if ends then String.◌++◌ (String.◌∷◌ c cut) "\n" else String.◌∷◌ c cut)
cons-end c true cut rest h = ap (String.◌∷◌ c) h ∙ sym (append.cons c cut "\n")
cons-end c false cut rest h = ap (String.◌∷◌ c) h

-- A text is its lines, with the line feed that ends it.
abbrev IsSplit : String → Type 0
IsSplit s = s ≡ (if ends_line s then String.◌++◌ (without_end s) "\n" else without_end s)

IsSplit-cons : (c : Char) (s : String) → IsSplit s → IsSplit (String.◌∷◌ c s)
unfolding ends_line without_end
IsSplit-cons c String.[] h = elim (Bool-cases (code c == 10)) [
  | inl feed ↦ rw feed (ap (λ d. String.◌∷◌ d "") (is_line_feed c feed) ∙ sym (append.nil "\n"))
  | inr other ↦ rw other refl
]
IsSplit-cons c (String.◌∷◌ d s) h =
    let rest = String.◌∷◌ d s in
    let more = not_empty d s in
    let ends : ends_line (String.◌∷◌ c rest) ≡ ends_line rest = ground (arith, more) in
    let cut : without_end (String.◌∷◌ c rest) ≡ String.◌∷◌ c (without_end rest) =
      ground (arith, more) in
    subst (λ (x : Bool × String). String.◌∷◌ c rest ≡ (if x.0 then String.◌++◌ x.1 "\n" else x.1))
      (λ i. (sym ends i, sym cut i)) (cons-end c (ends_line rest) (without_end rest) rest h)

end-IsSplit : (s : String) → IsSplit s
unfolding ends_line without_end
end-IsSplit String.[] = refl
end-IsSplit (String.◌∷◌ c s) = IsSplit-cons c s (end-IsSplit s)

with_ending-append :
    (e s : String) → with_ending e (String.◌++◌ s "\n") ≡ String.◌++◌ (with_ending e s) e
unfolding with_ending
with_ending-append e String.[] = text-append-nil e ∙ sym (append.nil e)
with_ending-append e (String.◌∷◌ c s) =
    ap (with_ending e) (append.cons c s "\n") ∙ elim (Bool-cases (code c == 10)) [
      | inl feed ↦ rw feed (
          ap (String.◌++◌ e) (with_ending-append e s)
          ∙ sym (text-append_assoc e (with_ending e s) e))
      | inr other ↦
          rw other
            (ap (String.◌∷◌ c) (with_ending-append e s) ∙ sym (append.cons c (with_ending e s) e))
    ]

without_crlf : (s : String) → has_crlf s ≡ false → replace_crlf s ≡ s
unfolding has_crlf replace_crlf
without_crlf String.[] h = refl
without_crlf (String.◌∷◌ c s) h = ground (arith, without_crlf s)

with_line_feed : (s : String) → with_ending "\n" s ≡ s
unfolding with_ending
with_line_feed String.[] = refl
with_line_feed (String.◌∷◌ c s) =
    if_holds (λ t. t ≡ String.◌∷◌ c s) (code c == 10)
      (λ feed.
        append.cons line_feed "" (with_ending "\n" s)
        ∙ ap (String.◌∷◌ line_feed) (append.nil (with_ending "\n" s) ∙ with_line_feed s)
        ∙ ap (λ d. String.◌∷◌ d s) (sym (is_line_feed c feed)))
      (λ _. ap (String.◌∷◌ c) (with_line_feed s))

join_content-with_ending :
    (e cut : String) (ends : Bool)
    → join_content (if str_eq cut "" && not ends then [] else split_char 10 cut) e ends
      ≡ with_ending e (if ends then String.◌++◌ cut "\n" else cut)
unfolding join_content with_ending
join_content-with_ending e cut true =
    let (same, some_parts) = join-split_char e cut in
    sym (
      with_ending-append e cut ∙ elim (Bool-cases (str_eq cut "")) [
        | inl empty ↦ rw (empty, some_parts, same) refl
        | inr more ↦ rw (more, some_parts, same) refl
      ])
join_content-with_ending e cut false =
    let (same, some_parts) = join-split_char e cut in
    elim (Bool-cases (str_eq cut "")) [
      | inl empty ↦ rw empty (ap (with_ending e) (sym ((eq_iff cut "").0 empty)))
      | inr more ↦ rw more same
    ]

-- Every line feed follows a carriage return; `before` says whether one came just before the text.
unfoldable pub crlf_only : Bool → String → Bool
crlf_only before String.[] = true
crlf_only before (String.◌∷◌ c s) = (not (code c == 10) || before) && crlf_only (code c == 13) s

abbrev carriage_return : Char
carriage_return = "\r"

without_feed {ℓ} : {A : Type ℓ} (before : Bool) (x y : A) → (if before && false then x else y) ≡ y
without_feed true x y = refl
without_feed false x y = refl

-- A character that is not part of a carriage return and line feed.
crlf-step :
    (before : Bool) (c : Char) (s : String)
    → (not (code c == 10) || before) ≡ true
    → (if code c == 10 then String.◌++◌ "\r\n" s else String.◌∷◌ c s) ≡ (
        if before && code c == 10
        then String.◌∷◌ carriage_return (String.◌∷◌ c s)
        else String.◌∷◌ c s)
crlf-step true c s h = elim (Bool-cases (code c == 10)) [
  | inl feed ↦ rw feed (
      append.cons carriage_return "\n" s
      ∙ ap (String.◌∷◌ carriage_return) (
          append.cons line_feed "" s
          ∙ ap (String.◌∷◌ line_feed) (append.nil s)
          ∙ ap (λ d. String.◌∷◌ d s) (sym (is_line_feed c feed))))
  | inr other ↦ rw other refl
]
crlf-step false c s h = elim (Bool-cases (code c == 10)) [
  | inl feed ↦ absurd (ground (arith, feed, h))
  | inr other ↦ rw other refl
]

with_crlf :
    (before : Bool) (s : String)
    → crlf_only before s ≡ true
    → with_ending "\r\n" (replace_crlf s)
      ≡ (if before && starts_line s then String.◌∷◌ carriage_return s else s)
unfolding crlf_only with_ending replace_crlf starts_line
with_crlf before String.[] h = sym (without_feed before "\r" "")
with_crlf before (String.◌∷◌ c s) h =
    let ih : with_ending "\r\n" (replace_crlf s)
        ≡ (if code c == 13 && starts_line s then String.◌∷◌ carriage_return s else s) =
      with_crlf (code c == 13) s (ground (arith, h)) in
    elim (Bool-cases (code c == 13 && starts_line s)) [
      | inl pair ↦
          let no_feed : code c == 10 ≡ false = ground (arith, pair) in
          let here : with_ending "\r\n" (replace_crlf s) ≡ String.◌∷◌ carriage_return s =
            (rw pair at ih) in
          rw (pair, no_feed)
            (here
              ∙ ap (λ d. String.◌∷◌ d s) (sym (Char-path c carriage_return (ground (arith, pair))))
              ∙ sym (without_feed before _ _))
      | inr single ↦
          let here : with_ending "\r\n" (replace_crlf s) ≡ s = (rw single at ih) in
          rw (single, here) (crlf-step before c s (ground (arith, h)))
    ]

-- Splitting a file into lines and joining them gives the file back, if it has no carriage return before
-- a line feed, or has one before each line feed.
pub join-split_content :
    (content : String)
    → (has_crlf content ≡ false) ⊎ (crlf_only false content ≡ true)
    → let split = split_content content in
      join_content split.lines split.ending split.trailing_newline ≡ content
unfolding split_content
join-split_content content uniform =
    let normalized = replace_crlf content in
    let ending : String = if has_crlf content then "\r\n" else "\n" in
    join_content-with_ending ending (without_end normalized) (ends_line normalized)
    ∙ ap (with_ending ending) (sym (end-IsSplit normalized))
    ∙ elim (Bool-cases (has_crlf content)) [
      | inl windows ↦ elim uniform [
        | inl unix ↦ cc (windows, unix)
        | inr only ↦ rw windows (with_crlf false content only)
      ]
      | inr unix ↦
          rw unix (ap (with_ending "\n") (without_crlf content unix) ∙ with_line_feed content)
    ]
