-- ===== src/Undo/Stacks.antt =====
-- The sizes of the undo and redo stacks.
use gocode.Base.{
  ℕ, zero, suc, ◌+◌, ◌≤◌, ◌≡◌, refl, ap, take, ◌∙◌, Bool, List, [], ◌∷◌, arith, length, is_empty,
  not, ◌&&◌, Result, ok, err, inl, inr, Bool-cases,
}
use gocode.Contract.{ToolError}
use gocode.Undo.{
  UndoTransaction, UndoStore, UndoOutcome, Direction, undo, redo, Files, Round, stop, go_on, commit,
  source, apply_transaction, detect_conflicts, after_files, round, apply, undo_n, redo_n,
  no_outcome, new_store, undo_count, redo_count, AppliedFile, Answer, after_round,
}

length-take-le {ℓ} : {A : Type ℓ} (n : ℕ) (xs : List A) → length (take n xs) ≤ n
length-take-le zero xs = omega arith
length-take-le (suc n) [] = omega arith
length-take-le (suc n) (x ∷ xs) = omega (arith, length-take-le n xs)

abbrev pub total : UndoStore → ℕ
total store = length store.undo_stack + length store.redo_stack

-- No more transactions are kept, on both stacks together, than the cap.
abbrev pub IsBounded : UndoStore → Type 0
IsBounded store = total store ≤ store.max_entries

-- How a request changes the number of transactions: an error loses one, all else keeps them.
abbrev pub lost {ℓ} : {A : Type ℓ} → Result ToolError A → ℕ
lost (ok _) = 0
lost (err _) = 1

module _ {D : Type 0} (fs : Files D) where
  abbrev RoundCounts : UndoStore → Round D → Type 0
  RoundCounts store (stop result store' d) =
      (total store' + lost result ≡ total store) × (store'.max_entries ≡ store.max_entries)
  RoundCounts store (go_on outcome store' d) =
      (total store' ≡ total store) × (store'.max_entries ≡ store.max_entries)

  after_files-counts :
      (direction : Direction) (t : UndoTransaction) (rest : List UndoTransaction)
      (outcome : UndoOutcome) (store : UndoStore) (r : Result ToolError (List AppliedFile)) (d : D)
      → source direction store ≡ t ∷ rest
      → RoundCounts store (after_files fs direction t rest outcome store (r, d))
  after_files-counts undo t rest outcome store (ok files) d e = (omega (arith, ap length e), refl)
  after_files-counts undo t rest outcome store (err x) d e = (omega (arith, ap length e), refl)
  after_files-counts redo t rest outcome store (ok files) d e = (omega (arith, ap length e), refl)
  after_files-counts redo t rest outcome store (err x) d e = (omega (arith, ap length e), refl)

  round-counts :
      (force : Bool) (direction : Direction) (stack : List UndoTransaction) (outcome : UndoOutcome)
      (store : UndoStore) (d : D)
      → source direction store ≡ stack
      → RoundCounts store (round fs force direction stack outcome store d)
  unfolding round
  round-counts force direction [] outcome store d e = (omega arith, refl)
  round-counts force direction (t ∷ rest) outcome store d e =
      elim (Bool-cases (not (is_empty (detect_conflicts fs t.files direction d)) && not force)) [
        | inl blocked ↦ rw blocked (omega arith, refl)
        | inr clear ↦ rw clear (
            let (r, d') = apply_transaction fs t.files direction d in
            after_files-counts direction t rest outcome store r d' e)
      ]

  abbrev pub AnswerCounts : UndoStore → Answer fs → Type 0
  AnswerCounts store (result, store', d) =
      (total store' + lost result ≡ total store) × (store'.max_entries ≡ store.max_entries)

  after_round-counts :
      (later : UndoOutcome → UndoStore → D → Answer fs) (store : UndoStore) (r : Round D)
      → ((outcome : UndoOutcome) (s : UndoStore) (d : D) → AnswerCounts s (later outcome s d))
      → RoundCounts store r
      → AnswerCounts store (after_round fs later r)
  after_round-counts later store (stop result store' d) ih h = h
  after_round-counts later store (go_on outcome store' d) ih h =
      let (sum, same) = ih outcome store' d in (omega arith, same ∙ h.1)

  -- A request to undo or redo keeps the number of transactions on both stacks together, and the cap,
  -- but where it fails: then exactly one transaction is lost.
  pub apply-counts :
      (n : ℕ) (force : Bool) (direction : Direction) (outcome : UndoOutcome) (store : UndoStore)
      (d : D)
      → AnswerCounts store (apply fs n force direction outcome store d)
  unfolding apply
  apply-counts zero force direction outcome store d = (omega arith, refl)
  apply-counts (suc n) force direction outcome store d =
      after_round-counts (apply fs n force direction) store
        (round fs force direction (source direction store) outcome store d)
        (apply-counts n force direction)
        (round-counts force direction (source direction store) outcome store d refl)

commit-IsBounded : (t : UndoTransaction) (store : UndoStore) → IsBounded (commit t store)
unfolding commit
commit-IsBounded t store = ground (arith, length-take-le store.max_entries (t ∷ store.undo_stack))

-- What a session asks of the history.
pub data Request : Type 0 where
  committed : UndoTransaction → Request
  asked : ℕ → Bool → Direction → Request

module _ {D : Type 0} (fs : Files D) where
  abbrev pub after_request : Request → UndoStore × D → UndoStore × D
  after_request (committed t) (store, d) = (commit t store, d)
  after_request (asked n force undo) (store, d) =
      let (result, store', d') = undo_n fs n force store d in (store', d')
  after_request (asked n force redo) (store, d) =
      let (result, store', d') = redo_n fs n force store d in (store', d')

  unfoldable pub after_requests : List Request → UndoStore × D → UndoStore × D
  after_requests [] state = state
  after_requests (request ∷ requests) state = after_requests requests (after_request request state)

  abbrev Keeps : ℕ → UndoStore → Type 0
  Keeps cap store = (total store ≤ cap) × (store.max_entries ≡ cap)

  after_request-Keeps :
      (cap : ℕ) (request : Request) (state : UndoStore × D)
      → Keeps cap state.0
      → Keeps cap (after_request request state).0
  unfolding undo_n redo_n commit
  after_request-Keeps cap (committed t) (store, d) (fits, same) =
      (omega (arith, commit-IsBounded t store, same), same)
  after_request-Keeps cap (asked n force undo) (store, d) (fits, same) =
      let (sum, kept) = apply-counts fs n force undo no_outcome store d in
      (omega (arith, sum, fits), kept ∙ same)
  after_request-Keeps cap (asked n force redo) (store, d) (fits, same) =
      let (sum, kept) = apply-counts fs n force redo no_outcome store d in
      (omega (arith, sum, fits), kept ∙ same)

  after_requests-Keeps :
      (cap : ℕ) (requests : List Request) (state : UndoStore × D)
      → Keeps cap state.0
      → Keeps cap (after_requests requests state).0
  unfolding after_requests
  after_requests-Keeps cap [] state h = h
  after_requests-Keeps cap (request ∷ requests) state h =
      after_requests-Keeps cap requests (after_request request state)
        (after_request-Keeps cap request state h)

  -- A history that began empty holds, after any commits and any requests to undo and redo, no more
  -- transactions on both stacks together than its cap.
  pub history-IsBounded :
      (cap : ℕ) (requests : List Request) (d : D)
      → let store = (after_requests requests (new_store cap, d)).0 in
        undo_count store + redo_count store ≤ cap
  unfolding new_store undo_count redo_count
  history-IsBounded cap requests d =
      (after_requests-Keeps cap requests (new_store cap, d) (omega arith, refl)).0
