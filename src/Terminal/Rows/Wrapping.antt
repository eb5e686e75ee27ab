-- ===== src/Terminal/Rows/Wrapping.antt =====
-- Wrapping lines in crates/gocode-tui/src/lib.rs loses nothing but blanks and keeps within the width.
use Prim.Native.Char.{Char, code}
use Prim.Native.String.{String, [], ◌∷◌, ◌++◌, count}
use Prim.Native.Nat.{min, max}
use text.Mathlib.TextLemmas.{length-cons, nil-append, cons-append, append_assoc}
use gocode.Base.{
  ℕ, zero, suc, ◌≤◌, ◌<◌, ◌≡◌, refl, ap, sym, ◌∙◌, subst, List, map, All, All-append, format,
  if◌then◌else◌, if_holds, Bool-cases, Option, none, some, inl, inr, str_eq, eq_iff, ltb, ◌==◌,
  ◌&&◌, take_chars, arith,
}
use gocode.Terminal.Cuts.{drop_chars, count-take_chars, count-drop_chars, take-drop_chars}
use gocode.Terminal.Rows.{
  last_blank, trim_end_blanks, after_blank, row_end, skip_blank, or_first, wrap_rounds, wrap_line,
  wrap_lines_tagged,
}
use mathlib.Core.List

-- A text without its blanks.
unfoldable pub visible : String → String
visible [] = ""
visible (c ∷ s) = let rest = visible s in if code c == b' ' then rest else c ∷ rest

visible-append : (s t : String) → visible (s ++ t) ≡ visible s ++ visible t
unfolding visible
visible-append [] t = rw (nil-append t, nil-append (visible t)) refl
visible-append (c ∷ s) t = rw (cons-append c s t) (elim (Bool-cases (code c == b' ')) [
  | inl blank ↦ rw blank (visible-append s t)
  | inr other ↦
      rw (other, cons-append c (visible s) (visible t)) (ap (λ r. c ∷ r) (visible-append s t))
])

visible-trim_end_blanks : (s : String) → visible (trim_end_blanks s) ≡ visible s
unfolding visible trim_end_blanks
visible-trim_end_blanks [] = refl
visible-trim_end_blanks (c ∷ s) =
    let ih = visible-trim_end_blanks s in
    elim (Bool-cases (code c == b' ')) [
      | inl blank ↦ elim (Bool-cases (str_eq (trim_end_blanks s) "")) [
        | inl bare ↦
            rw (blank, bare) (ap visible (sym ((eq_iff (trim_end_blanks s) "").0 bare)) ∙ ih)
        | inr more ↦ rw (blank, more) (rw blank ih)
      ]
      | inr other ↦ rw other (rw other (ap (λ r. c ∷ r) ih))
    ]

visible-skip_blank : (s : String) → visible (skip_blank s) ≡ visible s
unfolding visible skip_blank
visible-skip_blank [] = refl
visible-skip_blank (c ∷ s) = elim (Bool-cases (code c == b' ')) [
  | inl blank ↦ rw blank refl
  | inr other ↦ rw other (rw other refl)
]

count-skip_blank : (s : String) → count (skip_blank s) ≤ count s
unfolding skip_blank
count-skip_blank [] = omega arith
count-skip_blank (c ∷ s) =
    if_holds (λ (t : String). count t ≤ count (c ∷ s)) (code c == b' ')
      (λ _. omega (arith, length-cons c s)) (λ _. omega arith)

count-trim_end_blanks : (s : String) → count (trim_end_blanks s) ≤ count s
unfolding trim_end_blanks
count-trim_end_blanks [] = omega arith
count-trim_end_blanks (c ∷ s) =
    if_holds (λ (t : String). count t ≤ count (c ∷ s))
      (code c == b' ' && str_eq (trim_end_blanks s) "") (λ _. omega arith)
      (λ _.
        omega (arith, length-cons c s, length-cons c (trim_end_blanks s), count-trim_end_blanks s))

-- A place, if any, within so many characters.
abbrev Within : ℕ → Option ℕ → Type 0
Within n none = Unit
Within n (some at) = at < n

or_first-Within :
    (c : Char) (n : ℕ) (found : Option ℕ) → Within n found → Within (suc n) (or_first c found)
or_first-Within c n (some at) h = omega (arith, h)
or_first-Within c n none h = if_holds (Within (suc n)) (code c == b' ') (λ _. omega arith) (λ _. tt)

last_blank-Within : (s : String) → Within (count s) (last_blank s)
unfolding last_blank
last_blank-Within [] = tt
last_blank-Within (c ∷ s) =
    subst (λ n. Within n (or_first c (last_blank s))) (sym (length-cons c s))
      (or_first-Within c (count s) (last_blank s) (last_blank-Within s))

-- A place after the start and not after the end.
abbrev Inside : ℕ → ℕ → Type 0
Inside n end = (0 < end) × (end ≤ n)

after_blank-Inside :
    (found : Option ℕ) (n : ℕ) → 0 < n → Within n found → Inside n (after_blank found n)
after_blank-Inside none n some_text h = (some_text, omega arith)
after_blank-Inside (some zero) n some_text h = (some_text, omega arith)
after_blank-Inside (some (suc at)) n some_text h = (omega arith, omega (arith, h))

row_end-Inside :
    (width : ℕ) (s : String)
    → 0 < width
    → 0 < count s
    → Inside (min width (count s)) (row_end width s)
unfolding row_end
row_end-Inside width s wide some_text =
    let end = min width (count s) in
    let taken : count (take_chars end s) ≡ end = count-take_chars end s (omega arith) in
    if_holds (Inside end) (ltb end (count s))
      (λ _.
        after_blank-Inside (last_blank (take_chars end s)) end (omega (arith, wide, some_text)) (
          subst (λ n. Within n (last_blank (take_chars end s))) taken
            (last_blank-Within (take_chars end s))))
      (λ _. (omega (arith, wide, some_text), omega arith))

-- What rows keep of a text: all but its blanks, within the width.
abbrev pub Keeps : ℕ → String → List String → Type 0
Keeps width s rows =
    (visible (format rows) ≡ visible s) × All (λ (row : String). count row ≤ width) rows

wrap_rounds-Keeps :
    (fuel width : ℕ) (s : String)
    → 0 < width
    → count s ≤ fuel
    → Keeps width s (wrap_rounds fuel width s)
unfolding wrap_rounds
wrap_rounds-Keeps zero width [] wide enough = (refl, tt)
wrap_rounds-Keeps zero width (c ∷ s) wide enough = absurd (omega (arith, enough, length-cons c s))
wrap_rounds-Keeps (suc fuel) width [] wide enough = (refl, tt)
wrap_rounds-Keeps (suc fuel) width (c ∷ s) wide enough =
    let text = c ∷ s in
    let size = length-cons c s in
    let end = row_end width text in
    let (some_end, inside) = row_end-Inside width text wide (omega (arith, size)) in
    let front = take_chars end text in
    let rest = drop_chars end text in
    let (kept, narrow) =
      wrap_rounds-Keeps fuel width (skip_blank rest) wide
        (omega (arith, enough, some_end, count-skip_blank rest, count-drop_chars end text)) in
    (
      visible-append (trim_end_blanks front) (format (wrap_rounds fuel width (skip_blank rest)))
          ∙ ap (λ v. v ++ visible (format (wrap_rounds fuel width (skip_blank rest))))
              (visible-trim_end_blanks front)
          ∙ ap (λ v. visible front ++ v) (kept ∙ visible-skip_blank rest)
          ∙ sym (visible-append front rest)
          ∙ ap visible (take-drop_chars end text),
      (
        omega (
          arith,
          count-trim_end_blanks front,
          count-take_chars end text (omega (arith, inside)),
          inside,
        ),
        narrow,
      ),
    )

wrap_line-Keeps : (width : ℕ) (s : String) → 0 < width → Keeps width s (wrap_line width s)
unfolding wrap_line
wrap_line-Keeps width s wide =
    if_holds (Keeps width s) (str_eq s "")
      (λ bare. (rw ((eq_iff s "").0 bare) refl, (omega arith, tt)))
      (λ _. wrap_rounds-Keeps (count s) width s wide (omega arith))

visible-format :
    (xs ys : List String)
    → visible (format (List.◌++◌ xs ys)) ≡ visible (format xs) ++ visible (format ys)
unfolding visible
visible-format List.[] ys = sym (nil-append (visible (format ys)))
visible-format (List.◌∷◌ x xs) ys =
    visible-append x (format (List.◌++◌ xs ys))
    ∙ ap (λ v. visible x ++ v) (visible-format xs ys)
    ∙ sym (append_assoc (visible x) (visible (format xs)) (visible (format ys)))
    ∙ ap (λ v. v ++ visible (format ys)) (sym (visible-append x (format xs)))

module _ {LineKind : Type 0} where
  abbrev pub texts : List (String × LineKind) → List String
  texts List.[] = List.[]
  texts (List.◌∷◌ row rows) = List.◌∷◌ row.0 (texts rows)

  texts-append :
      (xs ys : List (String × LineKind)) → texts (List.◌++◌ xs ys) ≡ List.◌++◌ (texts xs) (texts ys)
  texts-append List.[] ys = refl
  texts-append (List.◌∷◌ x xs) ys = ap (λ l. List.◌∷◌ x.0 l) (texts-append xs ys)

  texts-tagged :
      (kind : LineKind) (rows : List String)
      → texts (map (λ (row : String). (row, kind)) rows) ≡ rows
  texts-tagged kind List.[] = refl
  texts-tagged kind (List.◌∷◌ row rows) = ap (λ l. List.◌∷◌ row l) (texts-tagged kind rows)

  -- Lines that are wrapped give rows within the width, of one column at least, and these have the
  -- characters of the lines in their order, but for some blanks.
  pub wrap_lines_tagged-Keeps :
      (lines : List (String × LineKind)) (width : ℕ)
      → let rows = texts (wrap_lines_tagged lines width) in
        (visible (format rows) ≡ visible (format (texts lines)))
        × All (λ (row : String). count row ≤ max width 1) rows
  unfolding wrap_lines_tagged
  wrap_lines_tagged-Keeps List.[] width = (refl, tt)
  wrap_lines_tagged-Keeps (List.◌∷◌ line lines) width =
      let rows = wrap_line (max width 1) line.0 in
      let later = texts (wrap_lines_tagged lines width) in
      let (kept, narrow) = wrap_line-Keeps (max width 1) line.0 (omega arith) in
      let (rest_kept, rest_narrow) = wrap_lines_tagged-Keeps lines width in
      let split : texts (wrap_lines_tagged (List.◌∷◌ line lines) width) ≡ List.◌++◌ rows later =
        texts-append (map (λ (row : String). (row, line.1)) rows) (wrap_lines_tagged lines width)
        ∙ ap (λ l. List.◌++◌ l later) (texts-tagged line.1 rows) in
      subst
        (λ (l : List String).
          (visible (format l) ≡ visible (line.0 ++ format (texts lines)))
          × All (λ (row : String). count row ≤ max width 1) l)
        (sym split)
        (
          visible-format rows later
              ∙ ap (λ v. v ++ visible (format later)) kept
              ∙ ap (λ v. visible line.0 ++ v) rest_kept
              ∙ sym (visible-append line.0 (format (texts lines))),
          All-append _ rows later narrow rest_narrow,
        )
