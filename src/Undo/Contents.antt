-- ===== src/Undo/Contents.antt =====
-- What undo and redo do to the contents of files, over the laws of reading and writing.
use gocode.Base.{
  Result, err, ◌≡◌, ◌↔◌, inl, inr, refl, ap, subst, sym, ◌∙◌, true, Option, none, some, List, [],
  ◌∷◌, arith, String, option_eq, is_empty, ok, Result-cases, eq_iff, All,
}
use gocode.Paths.{FilePath}
use gocode.Contract.{ToolError}
use gocode.Undo.{
  undo, redo, FileSnapshot, Direction, Files, AppliedFile, expected_before_apply,
  expected_after_apply, detect_conflicts, apply_transaction, put,
}

-- Reading back what was written, for paths that name different files (`Apart`).
pub record FilesLaws {D : Type 0} (fs : Files D) (Apart : FilePath → FilePath → Type 0)
    : Type 0 where
  pub read-write :
      (p : FilePath) (s : String) (d : D)
      → (fs.write p s d).0 ≡ ok tt
      → fs.read p (fs.write p s d).1 ≡ some s
  pub read-write_apart :
      (p q : FilePath) (s : String) (d : D) → Apart p q → fs.read q (fs.write p s d).1 ≡ fs.read q d
  pub read-remove :
      (p : FilePath) (d : D) → (fs.remove p d).0 ≡ ok tt → fs.read p (fs.remove p d).1 ≡ none
  pub read-remove_apart :
      (p q : FilePath) (d : D) → Apart p q → fs.read q (fs.remove p d).1 ≡ fs.read q d

option_eq_iff : (a b : Option String) → (option_eq a b ≡ true) ↔ (a ≡ b)
option_eq_iff none none = (λ h. refl, λ h. refl)
option_eq_iff none (some s) = (λ h. cc, λ h. cc)
option_eq_iff (some s) none = (λ h. cc, λ h. cc)
option_eq_iff (some s) (some t) =
    (λ h. ap some ((eq_iff s t).0 h), λ h. (eq_iff s t).1 (ground arith))

module _ (Apart : FilePath → FilePath → Type 0) where
  -- No two snapshots name the same file.
  abbrev pub AreApart : List FileSnapshot → Type 0
  AreApart [] = Unit
  AreApart (s ∷ files) = All (λ f. Apart s.path f.path × Apart f.path s.path) files × AreApart files

module _ {D : Type 0} (fs : Files D) where
  -- Every file holds what the direction expects before, or leaves after.
  abbrev pub AreBefore : Direction → D → List FileSnapshot → Type 0
  AreBefore direction d files =
      All (λ f. fs.read f.path d ≡ expected_before_apply f direction) files

  abbrev pub AreAfter : Direction → D → List FileSnapshot → Type 0
  AreAfter direction d files = All (λ f. fs.read f.path d ≡ expected_after_apply f direction) files

  -- A transaction has no conflict exactly when every one of its files, compared by its content,
  -- holds what the direction expects.
  pub detect_conflicts-empty_iff :
      (files : List FileSnapshot) (direction : Direction) (d : D)
      → (is_empty (detect_conflicts fs files direction d) ≡ true) ↔ AreBefore direction d files
  unfolding detect_conflicts
  detect_conflicts-empty_iff [] direction d = (λ h. tt, λ h. refl)
  detect_conflicts-empty_iff (f ∷ files) direction d = ground (
    arith,
    detect_conflicts-empty_iff files direction d,
    option_eq_iff (fs.read f.path d) (expected_before_apply f direction),
  )

-- What holds where the result is a success.
abbrev pub OkThen : Result ToolError (List AppliedFile) → Type 0 → Type 0
OkThen (ok done) A = A
OkThen (err e) A = Unit

OkThen-intro :
    {A : Type 0} (r : Result ToolError (List AppliedFile))
    → ((done : List AppliedFile) → r ≡ ok done → A)
    → OkThen r A
OkThen-intro (ok done) h = h done refl
OkThen-intro (err e) h = tt

module _ {D : Type 0} (fs : Files D) where
  -- Every file as it was before the edit, and as the edit left it.
  abbrev pub AreRestored : D → List FileSnapshot → Type 0
  AreRestored d files = All (λ f. fs.read f.path d ≡ f.before) files

  abbrev pub AreRedone : D → List FileSnapshot → Type 0
  AreRedone d files = All (λ f. fs.read f.path d ≡ f.after) files

module _ {D : Type 0} (fs : Files D) (Apart : FilePath → FilePath → Type 0)
    (laws : FilesLaws fs Apart) where
  read-put_self :
      (p : FilePath) (target : Option String) (d : D)
      → (put fs p target d).0 ≡ ok tt
      → fs.read p (put fs p target d).1 ≡ target
  read-put_self p none d h = laws.read-remove p d h
  read-put_self p (some s) d h = laws.read-write p s d h

  read-put_apart :
      (p q : FilePath) (target : Option String) (d : D)
      → Apart p q
      → fs.read q (put fs p target d).1 ≡ fs.read q d
  read-put_apart p q none d h = laws.read-remove_apart p q d h
  read-put_apart p q (some s) d h = laws.read-write_apart p q s d h

  pub read-apply_transaction_apart :
      (q : FilePath) (files : List FileSnapshot) (direction : Direction) (d : D)
      → All (λ f. Apart f.path q) files
      → fs.read q (apply_transaction fs files direction d).1 ≡ fs.read q d
  unfolding apply_transaction
  read-apply_transaction_apart q [] direction d h = refl
  read-apply_transaction_apart q (f ∷ files) direction d h =
      let target = expected_after_apply f direction in
      ground (
        arith,
        read-apply_transaction_apart q files direction (put fs f.path target d).1 h.1,
        read-put_apart f.path q target d h.0,
      )

  -- A success wrote the first file and goes on from there.
  apply_transaction-ok :
      (f : FileSnapshot) (files : List FileSnapshot) (direction : Direction) (d : D)
      (done : List AppliedFile)
      → (apply_transaction fs (f ∷ files) direction d).0 ≡ ok done
      → let (outcome, d') = put fs f.path (expected_after_apply f direction) d in
        let rest = apply_transaction fs files direction d' in
        (outcome ≡ ok tt)
        × ((later : List AppliedFile) × (rest.0 ≡ ok later))
        × ((apply_transaction fs (f ∷ files) direction d).1 ≡ rest.1)
  unfolding apply_transaction
  apply_transaction-ok f files direction d done h =
      let (outcome, d') = put fs f.path (expected_after_apply f direction) d in
      elim (Result-cases outcome) [
        | inl (u, wrote) ↦ elim (Result-cases (apply_transaction fs files direction d').0) [
          | inl (later, e) ↦ (ground arith, (later, e), ground arith)
          | inr (x, e) ↦ ground arith
        ]
        | inr (x, failed) ↦ ground arith
      ]

  All-read_apart :
      (direction : Direction) (p : FilePath) (d d' : D) (files : List FileSnapshot)
      → ((q : FilePath) → Apart p q → fs.read q d' ≡ fs.read q d)
      → All (λ f. Apart p f.path × Apart f.path p) files
      → AreAfter fs direction d files
      → AreAfter fs direction d' files
  All-read_apart direction p d d' [] same apart h = tt
  All-read_apart direction p d d' (f ∷ files) same apart h =
      (same f.path apart.0.0 ∙ h.0, All-read_apart direction p d d' files same apart.1 h.1)

  All-apart_left :
      (p : FilePath) (files : List FileSnapshot)
      → All (λ f. Apart p f.path × Apart f.path p) files
      → All (λ f. Apart f.path p) files
  All-apart_left p [] h = tt
  All-apart_left p (f ∷ files) h = (h.0.1, All-apart_left p files h.1)

  pub apply_transaction-AreAfter :
      (files : List FileSnapshot) (direction : Direction) (d : D) (done : List AppliedFile)
      → AreApart Apart files
      → (apply_transaction fs files direction d).0 ≡ ok done
      → AreAfter fs direction (apply_transaction fs files direction d).1 files
  apply_transaction-AreAfter [] direction d done apart h = tt
  apply_transaction-AreAfter (f ∷ files) direction d done apart h =
      let target = expected_after_apply f direction in
      let (wrote, (later, rest_ok), same) = apply_transaction-ok f files direction d done h in
      let d' = (put fs f.path target d).1 in
      subst (λ e. AreAfter fs direction e (f ∷ files)) (sym same)
        (
          (read-apply_transaction_apart f.path files direction d'
                (All-apart_left f.path files apart.0)
              ∙ read-put_self f.path target d wrote),
          apply_transaction-AreAfter files direction d' later apart.1 rest_ok,
        )

  AreAfter-AreRestored :
      (files : List FileSnapshot) (d : D) → AreAfter fs undo d files → AreRestored fs d files
  unfolding expected_after_apply
  AreAfter-AreRestored files d h = h

  AreAfter-AreRedone :
      (files : List FileSnapshot) (d : D) → AreAfter fs redo d files → AreRedone fs d files
  unfolding expected_after_apply
  AreAfter-AreRedone files d h = h

  -- Where files read back what was written, writing one does not change another and no two snapshots name
  -- the same file: an undo that succeeds leaves each of its files with the content from before the edit,
  -- or absent if it was, and a redo with the content from after it. Either of them, also where it fails,
  -- leaves alone a file that no snapshot of the transaction names.
  pub apply_transaction-Effect :
      (q : FilePath) (files : List FileSnapshot) (d : D)
      → AreApart Apart files
      → All (λ f. Apart f.path q) files
      → let (undone, d_undone) = apply_transaction fs files undo d in
        let (redone, d_redone) = apply_transaction fs files redo d in
        OkThen undone (AreRestored fs d_undone files)
        × OkThen redone (AreRedone fs d_redone files)
        × (fs.read q d_undone ≡ fs.read q d)
        × (fs.read q d_redone ≡ fs.read q d)
  apply_transaction-Effect q files d apart other = (
    OkThen-intro (apply_transaction fs files undo d).0 (λ done e.
        AreAfter-AreRestored files _ (apply_transaction-AreAfter files undo d done apart e)),
    OkThen-intro (apply_transaction fs files redo d).0 (λ done e.
        AreAfter-AreRedone files _ (apply_transaction-AreAfter files redo d done apart e)),
    read-apply_transaction_apart q files undo d other,
    read-apply_transaction_apart q files redo d other,
  )
