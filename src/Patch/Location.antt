-- ===== src/Patch/Location.antt =====
-- Where `locate_hunk` of crates/gocode-tools/src/patch.rs finds a hunk: at the one place that matches.
use mathlib.Core.List.{Memᴰ}
use gocode.Base.{
  ℕ, zero, suc, ◌+◌, ◌≤◌, ◌<◌, ◌≡◌, refl, sym, subst, Bool, true, false, ◌||◌, List, [], ◌∷◌,
  String, str_eq, length, drop, is_empty, ltb, if_holds, Result, ok, err, arith, Bool-cases, inl,
  inr, ◌==◌, length-drop,
}
use gocode.Contract.{ToolError}
use gocode.Patch.{Hunk}
use gocode.Patch.Hunks.{
  matches_at, same_trimmed, positions, find_all_by, find_all_subsequences,
  find_all_subsequences_fuzzy, MatchKind, exact, fuzzy_trailing_whitespace, located, locate_hunk,
}

-- How a kind of match compares two lines.
abbrev pub same_of : MatchKind → String → String → Bool
same_of exact = str_eq
same_of fuzzy_trailing_whitespace = same_trimmed

Mem-nil : {q : ℕ} → Memᴰ q [] → ⊥
Mem-nil m = elim m [ ]

pub length_pos : (lines : List String) → is_empty lines ≡ false → 1 ≤ length lines
length_pos [] h = cc h
length_pos (line ∷ lines) h = omega arith

pub matches_at-length :
    (same : String → String → Bool) (needle lines : List String)
    → matches_at same needle lines ≡ true
    → length needle ≤ length lines
unfolding matches_at
matches_at-length same [] lines h = omega arith
matches_at-length same (old ∷ olds) [] h = cc h
matches_at-length same (old ∷ olds) (line ∷ lines) h =
    ground (arith, matches_at-length same olds lines)

module _ (same : String → String → Bool) (haystack needle : List String) where
  -- The needle lies at a position from `position` on.
  abbrev IsFrom : ℕ → ℕ → Type 0
  IsFrom position q = (position ≤ q) × (matches_at same needle (drop q haystack) ≡ true)

  IsFrom-suc : (position q : ℕ) → IsFrom (suc position) q → IsFrom position q
  IsFrom-suc position q (above, h) = (omega (arith, above), h)

  IsFrom-head :
      (position q : ℕ) (ps : List ℕ)
      → matches_at same needle (drop position haystack) ≡ true
      → Memᴰ q (position ∷ ps)
      → (Memᴰ q ps → IsFrom position q)
      → IsFrom position q
  IsFrom-head position q ps here (Memᴰ.head e) later =
      (omega (arith, e), subst (λ k. matches_at same needle (drop k haystack) ≡ true) (sym e) here)
  IsFrom-head position q ps here (Memᴰ.tail m) later = later m

  positions_sound :
      (position n q : ℕ) → Memᴰ q (positions same haystack needle position n) → IsFrom position q
  unfolding positions
  positions_sound position zero q m = absurd (Mem-nil m)
  positions_sound position (suc n) q m =
      if_holds (λ l. Memᴰ q l → IsFrom position q) (matches_at same needle (drop position haystack))
        (λ here m.
          IsFrom-head position q _ here m
            (λ later. IsFrom-suc position q (positions_sound (suc position) n q later)))
        (λ _ m. IsFrom-suc position q (positions_sound (suc position) n q m)) m

  positions_complete :
      (position n q : ℕ)
      → IsFrom position q
      → q < position + n
      → Memᴰ q (positions same haystack needle position n)
  unfolding positions
  positions_complete position zero q (above, h) below = absurd (omega (arith, above, below))
  positions_complete position (suc n) q (above, h) below =
      if_holds (Memᴰ q) (matches_at same needle (drop position haystack))
        (λ here. elim (Bool-cases (q == position)) [
          | inl e ↦ Memᴰ.head (ground (arith, e))
          | inr e ↦ Memᴰ.tail (
              positions_complete (suc position) n q (ground (arith, above, e), h)
                (omega (arith, below)))
        ])
        (λ none_here. elim (Bool-cases (q == position)) [
          | inl e ↦
              let same_place : q ≡ position = ground (arith, e) in
              cc (
                subst (λ k. matches_at same needle (drop k haystack) ≡ true) same_place h,
                none_here,
              )
          | inr e ↦
              positions_complete (suc position) n q (ground (arith, above, e), h)
                (omega (arith, below))
        ])

  -- All the positions from `from` on.
  find_all_by_sound :
      (from q : ℕ)
      → Memᴰ q (find_all_by same haystack needle from)
      → IsFrom from q × (is_empty needle ≡ false)
  unfolding find_all_by
  find_all_by_sound from q m =
      if_holds (λ l. Memᴰ q l → IsFrom from q × (is_empty needle ≡ false))
        (is_empty needle || ltb (length haystack) (length needle)) (λ _ m. absurd (Mem-nil m))
        (λ some_lines m. (positions_sound from _ q m, ground (arith, some_lines))) m

  find_all_by_complete :
      (from q : ℕ)
      → IsFrom from q
      → is_empty needle ≡ false
      → Memᴰ q (find_all_by same haystack needle from)
  unfolding find_all_by
  find_all_by_complete from q (above, h) some_lines =
      let fits = matches_at-length same needle (drop q haystack) h in
      let size = length-drop q haystack in
      let nonempty = length_pos needle some_lines in
      if_holds (Memᴰ q) (is_empty needle || ltb (length haystack) (length needle))
        (λ none_fits. absurd (ground (arith, fits, size, none_fits, some_lines)))
        (λ _. positions_complete from _ q (above, h) (omega (arith, fits, size, nonempty)))

-- The old lines of a hunk lie at a position, from the cursor on, and at no other one. A match that
-- ignores trailing whitespace is used only where no exact match is.
pub record IsLocation (lines old : List String) (cursor position : ℕ) (kind : MatchKind)
    : Type 0 where
  pub some_lines : is_empty old ≡ false
  pub after_cursor : cursor ≤ position
  pub matches : matches_at (same_of kind) old (drop position lines) ≡ true
  pub unique :
      (q : ℕ) → cursor ≤ q → matches_at (same_of kind) old (drop q lines) ≡ true → q ≡ position
  pub exact_first :
      kind ≡ fuzzy_trailing_whitespace
      → (q : ℕ) → cursor ≤ q
      → matches_at str_eq old (drop q lines) ≡ true
      → ⊥

abbrev pub LocatedWell : List String → List String → ℕ → Result ToolError (ℕ × MatchKind) → Type 0
LocatedWell lines old cursor (ok (position, kind)) = IsLocation lines old cursor position kind
LocatedWell lines old cursor (err _) = Unit {0}

-- A list of positions that holds all matches and nothing else.
abbrev pub Finds : MatchKind → List String → List String → ℕ → List ℕ → Type 0
Finds kind lines old cursor found =
    ((q : ℕ)
      → Memᴰ q found
      → ((cursor ≤ q) × (matches_at (same_of kind) old (drop q lines) ≡ true))
        × (is_empty old ≡ false))
    × (is_empty old ≡ false
        → (q : ℕ) → cursor ≤ q
        → matches_at (same_of kind) old (drop q lines) ≡ true
        → Memᴰ q found)

single : (p q : ℕ) → Memᴰ q (p ∷ []) → q ≡ p
single p q (Memᴰ.head e) = e
single p q (Memᴰ.tail m) = absurd (Mem-nil m)

located-LocatedWell :
    (decimal : ℕ → String) (display_path : String) (lines old : List String) (cursor : ℕ)
    (exacts fuzzies : List ℕ)
    → Finds exact lines old cursor exacts
    → Finds fuzzy_trailing_whitespace lines old cursor fuzzies
    → LocatedWell lines old cursor (located decimal display_path exacts fuzzies)
located-LocatedWell decimal display_path lines old cursor (p ∷ []) fuzzies (sound, complete) h =
    let ((above, here), some_lines) = sound p (Memᴰ.head refl) in
    record {
      some_lines = some_lines;
      after_cursor = above;
      matches = here;
      unique = λ q from k. single p q (complete some_lines q from k);
      exact_first = λ e q from k. cc e;
    }
located-LocatedWell decimal display_path lines old cursor (_ ∷ _ ∷ _) fuzzies g h = tt
located-LocatedWell decimal display_path lines old cursor [] [] g h = tt
located-LocatedWell decimal display_path lines old cursor [] (p ∷ []) (_, none_exact)
      (sound, complete) =
    let ((above, here), some_lines) = sound p (Memᴰ.head refl) in
    record {
      some_lines = some_lines;
      after_cursor = above;
      matches = here;
      unique = λ q from k. single p q (complete some_lines q from k);
      exact_first = λ e q from k. Mem-nil (none_exact some_lines q from k);
    }
located-LocatedWell decimal display_path lines old cursor [] (_ ∷ _ ∷ _) g h = tt

find_all-Finds :
    (kind : MatchKind) (lines old : List String) (cursor : ℕ)
    → Finds kind lines old cursor (find_all_by (same_of kind) lines old cursor)
find_all-Finds kind lines old cursor = (
  λ q m. find_all_by_sound (same_of kind) lines old cursor q m,
  λ some_lines q from k.
      find_all_by_complete (same_of kind) lines old cursor q (from, k) some_lines,
)

-- A position that `locate_hunk` gives is at or after the cursor, the old lines of the hunk lie there, and
-- they lie at no other position from the cursor on. Trailing whitespace is ignored only where no exact
-- match is. A hunk without old lines is never located.
pub locate_hunk-IsLocation :
    (decimal : ℕ → String) (lines : List String) (hunk : Hunk) (cursor : ℕ) (display_path : String)
    → LocatedWell lines hunk.old_lines cursor (locate_hunk decimal lines hunk cursor display_path)
unfolding locate_hunk find_all_subsequences find_all_subsequences_fuzzy
locate_hunk-IsLocation decimal lines hunk cursor display_path =
    located-LocatedWell decimal display_path lines hunk.old_lines cursor _ _
      (find_all-Finds exact lines hunk.old_lines cursor)
      (find_all-Finds fuzzy_trailing_whitespace lines hunk.old_lines cursor)
