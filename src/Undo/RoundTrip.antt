-- ===== src/Undo/RoundTrip.antt =====
-- What a request to undo or redo does to the stacks and the files.
use gocode.Base.{
  ℕ, suc, ◌≡◌, refl, ap, subst, sym, ◌∙◌, false, none, List, [], ◌∷◌, arith, is_empty, Result, ok,
  Bool-cases, Result-cases, inl, inr, All,
}
use gocode.Paths.{FilePath}
use gocode.Contract.{ToolError}
use gocode.Undo.{
  FileSnapshot, UndoTransaction, UndoStore, UndoOutcome, Direction, undo, redo, Files, no_outcome,
  source, detect_conflicts, apply_transaction, round, apply, undo_n, redo_n, Answer, after_round,
  after_files, moved, conflicted, expected_before_apply, expected_after_apply,
}
use gocode.Undo.Contents.{
  FilesLaws, AreApart, AreBefore, AreAfter, detect_conflicts-empty_iff, apply_transaction-AreAfter,
}

module _ {D : Type 0} (fs : Files D) (Apart : FilePath → FilePath → Type 0)
    (laws : FilesLaws fs Apart) where
  -- What one round of an unforced request has done where it reports neither error nor conflict.
  record Did (direction : Direction) (t : UndoTransaction) (rest : List UndoTransaction)
      (store : UndoStore) (d : D) (a : Answer fs) : Type 0 where
    before : AreBefore fs direction d t.files
    after : AreAfter fs direction a.2 t.files
    stacks : a.1 ≡ moved direction t rest store

  abbrev Reported : Result ToolError UndoOutcome → Type 0
  Reported r = (o : UndoOutcome) × (r ≡ ok o) × (o.conflict ≡ none)

  -- The round, with the top of the stack in sight.
  abbrev one : Direction → List UndoTransaction → UndoStore → D → Answer fs
  one direction stack store d =
      after_round fs (apply fs 0 false direction)
        (round fs false direction stack no_outcome store d)

  after_files-Did :
      (direction : Direction) (t : UndoTransaction) (rest : List UndoTransaction)
      (store : UndoStore) (d : D)
      → AreApart Apart t.files
      → AreBefore fs direction d t.files
      → let a = after_round fs (apply fs 0 false direction) (
          after_files fs direction t rest no_outcome store
            (apply_transaction fs t.files direction d)) in
        Reported a.0 → Did direction t rest store d a
  unfolding apply
  after_files-Did direction t rest store d apart before (o, r, c) =
      elim (Result-cases (apply_transaction fs t.files direction d).0) [
        | inl (done, e) ↦ rw e (record {
          before = before;
          after = apply_transaction-AreAfter fs Apart laws t.files direction d done apart e;
          stacks = refl;
        })
        | inr (x, e) ↦ ground arith
      ]

  one-Did :
      (direction : Direction) (t : UndoTransaction) (rest : List UndoTransaction)
      (store : UndoStore) (d : D)
      → AreApart Apart t.files
      → Reported (one direction (t ∷ rest) store d).0
      → Did direction t rest store d (one direction (t ∷ rest) store d)
  unfolding round
  one-Did direction t rest store d apart reported =
      let conflicts = detect_conflicts fs t.files direction d in
      elim (Bool-cases (is_empty conflicts)) [
        | inl clear ↦
            let before = (detect_conflicts-empty_iff fs t.files direction d).0 clear in
            rw clear (after_files-Did direction t rest store d apart before (rw clear at reported))
        | inr blocked ↦ absurd (ground (arith, reported))
      ]

  apply_one-Did :
      (direction : Direction) (t : UndoTransaction) (rest : List UndoTransaction)
      (store : UndoStore) (d : D)
      → source direction store ≡ t ∷ rest
      → AreApart Apart t.files
      → Reported (apply fs 1 false direction no_outcome store d).0
      → Did direction t rest store d (apply fs 1 false direction no_outcome store d)
  unfolding apply
  apply_one-Did direction t rest store d e apart =
      subst
        (λ stack.
          Reported (one direction stack store d).0
          → Did direction t rest store d (one direction stack store d))
        (sym e) (one-Did direction t rest store d apart)

  one-unconflicted :
      (direction : Direction) (t : UndoTransaction) (rest : List UndoTransaction)
      (store : UndoStore) (d : D) (o : UndoOutcome)
      → AreBefore fs direction d t.files
      → (one direction (t ∷ rest) store d).0 ≡ ok o
      → o.conflict ≡ none
  unfolding round apply
  one-unconflicted direction t rest store d o before r =
      let clear = (detect_conflicts-empty_iff fs t.files direction d).1 before in ground arith

  All-read_same :
      (d d' : D) (files : List FileSnapshot)
      → AreAfter fs redo d' files
      → AreBefore fs undo d files
      → All (λ f. fs.read f.path d' ≡ fs.read f.path d) files
  unfolding expected_before_apply expected_after_apply
  All-read_same d d' [] h k = tt
  All-read_same d d' (f ∷ files) h k = (h.0 ∙ sym k.0, All-read_same d d' files h.1 k.1)

  after_undo-before_redo :
      (d : D) (files : List FileSnapshot) → AreAfter fs undo d files → AreBefore fs redo d files
  unfolding expected_before_apply expected_after_apply
  after_undo-before_redo d files h = h

  store-moved_twice :
      (t : UndoTransaction) (rest : List UndoTransaction) (store : UndoStore)
      → store.undo_stack ≡ t ∷ rest
      → moved redo t store.redo_stack (moved undo t rest store) ≡ store
  store-moved_twice t rest store top = λ i. record store { undo_stack = sym top i }

  -- An undo of one transaction, followed by a redo of one, neither of them forced: if the undo reports
  -- no conflict and the redo does not fail, then the redo reports no conflict either, both stacks are
  -- as before, and so is every file of the transaction. The files read back what was written, and no
  -- two snapshots name the same file.
  pub redo-undo :
      (t : UndoTransaction) (rest : List UndoTransaction) (store : UndoStore) (d : D)
      (o : UndoOutcome)
      → store.undo_stack ≡ t ∷ rest
      → AreApart Apart t.files
      → Reported (undo_n fs 1 false store d).0
      → (redo_n fs 1 false (undo_n fs 1 false store d).1 (undo_n fs 1 false store d).2).0 ≡ ok o
      → let (r, undone, d') = undo_n fs 1 false store d in
        let (r', redone, d'') = redo_n fs 1 false undone d' in
        (o.conflict ≡ none)
        × (redone ≡ store)
        × All (λ f. fs.read f.path d'' ≡ fs.read f.path d) t.files
  unfolding undo_n redo_n apply
  redo-undo t rest store d o top apart reported r' =
      let (r, undone, d') = apply fs 1 false undo no_outcome store d in
      let did = apply_one-Did undo t rest store d top apart reported in
      let again : source redo undone ≡ t ∷ store.redo_stack = ap (λ s. s.redo_stack) did.stacks in
      let clear =
        one-unconflicted redo t store.redo_stack undone d' o
          (after_undo-before_redo d' t.files did.after)
          (subst (λ stack. (one redo stack undone d').0 ≡ ok o) again r') in
      let (r'', redone, d'') = apply fs 1 false redo no_outcome undone d' in
      let did' = apply_one-Did redo t store.redo_stack undone d' again apart (o, r', clear) in
      (
        clear,
        did'.stacks
            ∙ ap (moved redo t store.redo_stack) did.stacks
            ∙ store-moved_twice t rest store top,
        All-read_same d d'' t.files did'.after did.before,
      )

module _ {D : Type 0} (fs : Files D) where
  -- An unforced request whose next transaction has a file with another content than expected stops with
  -- the conflicts of that transaction, and changes neither the stacks nor the files.
  pub conflict_changes_nothing :
      (n : ℕ) (direction : Direction) (t : UndoTransaction) (rest : List UndoTransaction)
      (outcome : UndoOutcome) (store : UndoStore) (d : D)
      → source direction store ≡ t ∷ rest
      → ¬ AreBefore fs direction d t.files
      → apply fs (suc n) false direction outcome store d
        ≡ (ok (conflicted fs t (detect_conflicts fs t.files direction d) outcome), store, d)
  unfolding apply round
  conflict_changes_nothing n direction t rest outcome store d e differs =
      rw e (ground (arith, detect_conflicts-empty_iff fs t.files direction d))
