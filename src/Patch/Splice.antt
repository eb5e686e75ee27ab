-- ===== src/Patch/Splice.antt =====
-- What `apply_hunks` of crates/gocode-tools/src/patch.rs does to the lines of a file: its hunks replace
-- disjoint parts of the file, in their order, and nothing else changes.
use gocode.Base.{
  ℕ, ◌+◌, ◌-◌, ◌≤◌, ◌≡◌, refl, sym, ap, subst, ◌∙◌, Bool, true, List, [], ◌∷◌, ◌++◌, append_assoc,
  String, eq_iff, length, take, drop, trim_end, ok, err, arith, length-drop, length-take,
  length-append, take-drop, take-append, drop-append,
}
use gocode.Patch.{Hunk}
use gocode.Patch.Hunks.{
  matches_at, same_trimmed, MatchKind, exact, fuzzy_trailing_whitespace, Located, edited,
  then_splice, splice_hunks, Spliced, fuzzy_count,
}
use gocode.Patch.Location.{
  same_of, IsLocation, LocatedWell, locate_hunk-IsLocation, matches_at-length, length_pos,
}

-- A stretch of a file that a hunk replaces: as many lines as the hunk has old ones, which agree with
-- them but for trailing whitespace.
pub record Agrees (stretch old : List String) : Type 0 where
  pub size : length stretch ≡ length old
  pub same : matches_at same_trimmed old stretch ≡ true

-- The lines that the hunks make of a file: each replaces one stretch, after those of the hunks before.
abbrev pub Edits : List Hunk → List String → List String → Type 0
Edits [] lines result = result ≡ lines
Edits (hunk ∷ hunks) lines result =
    (before : List String) × (stretch : List String) × (after : List String) × (rest : List String)
    × (lines ≡ before ++ (stretch ++ after))
    × (result ≡ before ++ (hunk.new_lines ++ rest))
    × Agrees stretch hunk.old_lines
    × Edits hunks after rest

same_of-trimmed :
    (kind : MatchKind) (old lines : List String)
    → matches_at (same_of kind) old lines ≡ true
    → matches_at same_trimmed old lines ≡ true
unfolding matches_at
same_of-trimmed fuzzy_trailing_whitespace old lines h = h
same_of-trimmed exact [] lines h = refl
same_of-trimmed exact (o ∷ old) [] h = cc h
same_of-trimmed exact (o ∷ old) (line ∷ lines) h =
    ground
      (arith, eq_iff line o, eq_iff (trim_end line) (trim_end o), same_of-trimmed exact old lines)

-- The lines that a match needs are the first ones.
matches_at-take :
    (same : String → String → Bool) (old lines : List String)
    → matches_at same old lines ≡ true
    → matches_at same old (take (length old) lines) ≡ true
unfolding matches_at
matches_at-take same [] lines h = refl
matches_at-take same (o ∷ old) [] h = cc h
matches_at-take same (o ∷ old) (line ∷ lines) h = ground (arith, matches_at-take same old lines)

-- How a located hunk cuts the lines after the cursor.
record Cut (finished todo : List String) (hunk : Hunk) (position : ℕ) : Type 0 where
  before : List String
  stretch : List String
  after : List String
  split : todo ≡ before ++ (stretch ++ after)
  agrees : Agrees stretch hunk.old_lines
  result :
      edited (finished ++ todo) hunk position ≡ ((finished ++ before) ++ hunk.new_lines) ++ after
  cursor : position + length hunk.new_lines ≡ length ((finished ++ before) ++ hunk.new_lines)

Cut-of_IsLocation :
    (finished todo : List String) (hunk : Hunk) (position : ℕ) (kind : MatchKind)
    → IsLocation (finished ++ todo) hunk.old_lines (length finished) position kind
    → Cut finished todo hunk position
Cut-of_IsLocation finished todo hunk position kind location =
    let old = hunk.old_lines in
    let k = position - length finished in
    let before = take k todo in
    let middle = drop k todo in
    let at_k : position ≡ length finished + k = omega (arith, location.after_cursor) in
    let dropped : drop position (finished ++ todo) ≡ middle =
      drop-append finished todo position k at_k in
    let matched : matches_at same_trimmed old middle ≡ true =
      same_of-trimmed kind old middle
        (subst (λ l. matches_at (same_of kind) old l ≡ true) dropped location.matches) in
    let fits : length old ≤ length middle = matches_at-length same_trimmed old middle matched in
    let some_lines = length_pos old location.some_lines in
    let size : length before ≡ k =
      length-take k todo (omega (arith, fits, some_lines, length-drop k todo)) in
    let later : drop (position + length old) (finished ++ todo) ≡ drop (length old) middle =
      drop-append finished todo (position + length old) (k + length old) (omega (arith, at_k))
      ∙ ap (drop (k + length old)) (sym (take-drop k todo))
      ∙ drop-append before middle (k + length old) (length old) (omega (arith, size)) in
    record {
      before = before;
      stretch = take (length old) middle;
      after = drop (length old) middle;
      split = sym (ap (λ l. before ++ l) (take-drop (length old) middle) ∙ take-drop k todo);
      agrees = record {
        size = length-take (length old) middle fits;
        same = matches_at-take same_trimmed old middle matched;
      };
      result =
          ap (λ l. take position (finished ++ todo) ++ (hunk.new_lines ++ l)) later
          ∙ ap (λ l. l ++ (hunk.new_lines ++ drop (length old) middle))
              (take-append finished todo position k at_k)
          ∙ simp append_assoc;
      cursor = omega (
        arith,
        at_k,
        size,
        length-append (finished ++ before) hunk.new_lines,
        length-append finished before,
      );
    }

-- The result of the loop, from what is finished and what is still to do.
abbrev SplicedWell : List Hunk → List String → List String → Spliced → Type 0
SplicedWell hunks finished todo (err _) = Unit {0}
SplicedWell hunks finished todo (ok (lines, _)) =
    (rest : List String) × (lines ≡ finished ++ rest) × Edits hunks todo rest

SplicedWell-cons :
    (finished todo : List String) (hunk : Hunk) (hunks : List Hunk) (position : ℕ)
    (cut : Cut finished todo hunk position) (o : Spliced)
    → SplicedWell hunks ((finished ++ cut.before) ++ hunk.new_lines) cut.after o
    → SplicedWell (hunk ∷ hunks) finished todo o
SplicedWell-cons finished todo hunk hunks position cut (err e) h = tt
SplicedWell-cons finished todo hunk hunks position cut (ok (lines, n)) (rest, e, edits) = (
  cut.before ++ (hunk.new_lines ++ rest),
  e ∙ simp append_assoc,
  (cut.before, cut.stretch, cut.after, rest, cut.split, refl, cut.agrees, edits),
)

then_splice-SplicedWell :
    (decimal : ℕ → String) (later : List String → ℕ → ℕ → Spliced) (finished todo : List String)
    (hunk : Hunk) (hunks : List Hunk) (fuzzy : ℕ)
    → ((finished todo : List String) (n : ℕ)
        → SplicedWell hunks finished todo (later (finished ++ todo) (length finished) n))
    → (o : Located) → LocatedWell (finished ++ todo) hunk.old_lines (length finished) o
    → SplicedWell
        (hunk ∷ hunks)
        finished
        todo
        (then_splice decimal later (finished ++ todo) hunk fuzzy o)
then_splice-SplicedWell decimal later finished todo hunk hunks fuzzy ih (err e) location = tt
then_splice-SplicedWell decimal later finished todo hunk hunks fuzzy ih (ok (position, kind))
      location =
    let cut = Cut-of_IsLocation finished todo hunk position kind location in
    let finished' = (finished ++ cut.before) ++ hunk.new_lines in
    let after = cut.after in
    let n = fuzzy + fuzzy_count kind in
    SplicedWell-cons finished todo hunk hunks position cut _ (
      subst
        (λ lines.
          SplicedWell hunks finished' after (later lines (position + length hunk.new_lines) n))
        (sym cut.result)
        (subst (λ c. SplicedWell hunks finished' after (later (finished' ++ after) c n))
          (sym cut.cursor) (ih finished' after n)))

splice_hunks-SplicedWell :
    (decimal : ℕ → String) (display_path : String) (hunks : List Hunk) (finished todo : List String)
    (fuzzy : ℕ)
    → SplicedWell hunks finished todo
        (splice_hunks decimal display_path hunks (finished ++ todo) (length finished) fuzzy)
unfolding splice_hunks
splice_hunks-SplicedWell decimal display_path [] finished todo fuzzy = (todo, refl, refl)
splice_hunks-SplicedWell decimal display_path (hunk ∷ hunks) finished todo fuzzy =
    then_splice-SplicedWell decimal (splice_hunks decimal display_path hunks) finished todo hunk
      hunks fuzzy (splice_hunks-SplicedWell decimal display_path hunks) _
      (locate_hunk-IsLocation decimal (finished ++ todo) hunk (length finished) display_path)

-- The hunks of an update that is applied replace disjoint stretches of the file, in the order of the
-- hunks, each of which agrees with the old lines of its hunk but for trailing whitespace; all the other
-- lines stay.
pub splice_hunks-Edits :
    (decimal : ℕ → String) (display_path : String) (hunks : List Hunk) (lines result : List String)
    (fuzzy n : ℕ)
    → splice_hunks decimal display_path hunks lines 0 fuzzy ≡ ok (result, n)
    → Edits hunks lines result
splice_hunks-Edits decimal display_path hunks lines result fuzzy n h =
    let (rest, e, edits) =
      subst (SplicedWell hunks [] lines) h
        (splice_hunks-SplicedWell decimal display_path hunks [] lines fuzzy) in
    subst (Edits hunks lines) (sym e) edits
