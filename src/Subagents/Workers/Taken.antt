-- ===== src/Subagents/Workers/Taken.antt =====
-- What is known of a task that is found among those of crates/gocode-agent/src/subagent_manager.rs, and
-- of the others.
use gocode.Base.{
  suc, ◌+◌, ◌<◌, ◌≡◌, ◌≢◌, refl, sym, ap, ◌∙◌, ◌||◌, subst, inl, inr, true, false, Option, none,
  some, List, [], ◌∷◌, String, str_eq, eq_iff, differs_of, false_of, All, length, Bool-cases, arith,
}
use gocode.Subagents.Workers.{
  Phase, Worker, waiting, driving, asking, ended, closing, holds, holders, aside, take_worker,
  IsOther, IsUnique, Splits, has_worker,
}

true-ne-false : true ≡ false → ⊥
true-ne-false e = cc e

module _ {V : Type 0} where
  abbrev pub Parts : String → List (Worker V) → Worker V → List (Worker V) → Type 0
  Parts id workers w rest =
      (w.task.id ≡ id)
      × (holders workers ≡ holds w.phase + holders rest)
      × (length workers ≡ suc (length rest))

  aside-Parts :
      (id : String) (v : Worker V) (workers : List (Worker V))
      (o : Option (Worker V × List (Worker V)))
      → Splits (Parts id workers) o
      → Splits (Parts id (v ∷ workers)) (aside v o)
  unfolding holders
  aside-Parts id v workers none h = tt
  aside-Parts id v workers (some (w, rest)) h = (h.0, omega (arith, h.1), omega (arith, h.2))

  take_worker-Parts :
      (id : String) (workers : List (Worker V)) → Splits (Parts id workers) (take_worker id workers)
  unfolding take_worker holders
  take_worker-Parts id [] = tt
  take_worker-Parts id (w ∷ workers) = elim (Bool-cases (str_eq w.task.id id)) [
    | inl e ↦ rw e ((eq_iff w.task.id id).0 e, refl, refl)
    | inr e ↦
        rw e (aside-Parts id w workers (take_worker id workers) (take_worker-Parts id workers))
  ]

  pub taken-Parts :
      (id : String) (workers rest : List (Worker V)) (w : Worker V)
      → take_worker id workers ≡ some (w, rest)
      → Parts id workers w rest
  taken-Parts id workers rest w e =
      subst (Splits (Parts id workers)) e (take_worker-Parts id workers)

  module _ (P : Worker V → Type 0) where
    AllOf : Worker V → List (Worker V) → Type 0
    AllOf w rest = P w × All P rest

    aside-AllOf :
        (v : Worker V) (o : Option (Worker V × List (Worker V)))
        → P v
        → Splits AllOf o
        → Splits AllOf (aside v o)
    unfolding AllOf
    aside-AllOf v none p h = tt
    aside-AllOf v (some (w, rest)) p h = (h.0, (p, h.1))

    take_worker-AllOf :
        (id : String) (workers : List (Worker V))
        → All P workers
        → Splits AllOf (take_worker id workers)
    unfolding take_worker AllOf
    take_worker-AllOf id [] h = tt
    take_worker-AllOf id (w ∷ workers) h = elim (Bool-cases (str_eq w.task.id id)) [
      | inl e ↦ rw e h
      | inr e ↦ rw e (aside-AllOf w (take_worker id workers) h.0 (take_worker-AllOf id workers h.1))
    ]

    pub All-taken :
        (id : String) (workers rest : List (Worker V)) (w : Worker V)
        → take_worker id workers ≡ some (w, rest)
        → All P workers
        → P w × All P rest
    unfolding AllOf
    All-taken id workers rest w e h = subst (Splits AllOf) e (take_worker-AllOf id workers h)

  -- The others, once one task of distinct ones is taken.
  abbrev Others : String → Worker V → List (Worker V) → Type 0
  Others id w rest = All (IsOther id) rest × IsUnique rest

  abbrev OthersOf : String → String → Worker V → List (Worker V) → Type 0
  OthersOf id other w rest = AllOf (IsOther other) w rest × Others id w rest

  both :
      (id other : String) (o : Option (Worker V × List (Worker V)))
      → Splits (AllOf (IsOther other)) o
      → Splits (Others id) o
      → Splits (OthersOf id other) o
  both id other none p q = tt
  both id other (some (w, rest)) p q = (p, q)

  aside-Others :
      (id : String) (v : Worker V) (o : Option (Worker V × List (Worker V)))
      → IsOther id v
      → Splits (OthersOf id v.task.id) o
      → Splits (Others id) (aside v o)
  unfolding AllOf
  aside-Others id v none differs h = tt
  aside-Others id v (some (w, rest)) differs h = ((differs, h.1.0), (h.0.1, h.1.1))

  All-equal :
      (id other : String) (workers : List (Worker V))
      → id ≡ other
      → All (IsOther id) workers
      → All (IsOther other) workers
  All-equal id other workers e h = subst (λ i. All (IsOther i) workers) e h

  take_worker-Others :
      (id : String) (workers : List (Worker V))
      → IsUnique workers
      → Splits (Others id) (take_worker id workers)
  unfolding take_worker
  take_worker-Others id [] h = tt
  take_worker-Others id (w ∷ workers) h = elim (Bool-cases (str_eq w.task.id id)) [
    | inl e ↦ rw e (All-equal w.task.id id workers ((eq_iff w.task.id id).0 e) h.0, h.1)
    | inr e ↦ rw e (
        aside-Others id w (take_worker id workers) (differs_of w.task.id id e) (
          both id w.task.id (take_worker id workers)
            (take_worker-AllOf (IsOther w.task.id) id workers h.0)
            (take_worker-Others id workers h.1)))
  ]

  pub taken_others :
      (id : String) (workers rest : List (Worker V)) (w : Worker V)
      → take_worker id workers ≡ some (w, rest)
      → IsUnique workers
      → All (IsOther id) rest × IsUnique rest
  taken_others id workers rest w e h =
      subst (Splits (Others id)) e (take_worker-Others id workers h)

  pub has_worker-found :
      (id : String) (workers : List (Worker V))
      → has_worker id workers ≡ true
      → (w : Worker V) × (rest : List (Worker V)) × (take_worker id workers ≡ some (w, rest))
  unfolding take_worker
  has_worker-found id [] h = cc h
  has_worker-found id (w ∷ workers) h = elim (Bool-cases (str_eq w.task.id id)) [
    | inl e ↦ (w, workers, rw e refl)
    | inr e ↦
        let (v, rest, found) = has_worker-found id workers (rw e at h) in
        (v, w ∷ rest, rw (e, found) refl)
  ]

  -- Taking one task leaves the tasks of other identifiers.
  abbrev Keeps : String → List (Worker V) → Worker V → List (Worker V) → Type 0
  Keeps other workers w rest = has_worker other workers ≡ has_worker other rest

  aside-Keeps :
      (other : String) (v : Worker V) (workers : List (Worker V))
      (o : Option (Worker V × List (Worker V)))
      → Splits (Keeps other workers) o
      → Splits (Keeps other (v ∷ workers)) (aside v o)
  aside-Keeps other v workers none h = tt
  aside-Keeps other v workers (some (w, rest)) h = ap (λ b. str_eq v.task.id other || b) h

  take_worker-Keeps :
      (id other : String) (workers : List (Worker V))
      → id ≢ other
      → Splits (Keeps other workers) (take_worker id workers)
  unfolding take_worker
  take_worker-Keeps id other [] differs = tt
  take_worker-Keeps id other (w ∷ workers) differs = elim (Bool-cases (str_eq w.task.id id)) [
    | inl e ↦
        let distinct : str_eq w.task.id other ≡ false =
          false_of w.task.id other (λ same. differs (sym ((eq_iff w.task.id id).0 e) ∙ same)) in
        rw (e, distinct) refl
    | inr e ↦ rw e (
        aside-Keeps other w workers (take_worker id workers)
          (take_worker-Keeps id other workers differs))
  ]

  pub taken_keeps :
      (id other : String) (workers rest : List (Worker V)) (w : Worker V)
      → take_worker id workers ≡ some (w, rest)
      → id ≢ other
      → has_worker other workers ≡ has_worker other rest
  taken_keeps id other workers rest w e differs =
      subst (Splits (Keeps other workers)) e (take_worker-Keeps id other workers differs)

  -- The task at the front is the one that its identifier finds.
  pub take_worker-first :
      (w : Worker V) (rest : List (Worker V)) (id : String)
      → w.task.id ≡ id
      → take_worker id (w ∷ rest) ≡ some (w, rest)
  unfolding take_worker
  take_worker-first w rest id e = rw ((eq_iff w.task.id id).1 e) refl

  pub not_has_worker-All :
      (id : String) (workers : List (Worker V))
      → has_worker id workers ≡ false
      → All (IsOther id) workers
  not_has_worker-All id [] h = tt
  not_has_worker-All id (w ∷ workers) h = elim (Bool-cases (str_eq w.task.id id)) [
    | inl e ↦ absurd (true-ne-false (rw e at h))
    | inr e ↦ (differs_of w.task.id id e, not_has_worker-All id workers (rw e at h))
  ]

  pub All-both {κ} :
      (P : Worker V → Type 0) (Q : Worker V → Type 0) (R : Worker V → Type κ)
      (workers : List (Worker V))
      → ((w : Worker V) → P w → Q w → R w)
      → All P workers
      → All Q workers
      → All R workers
  All-both P Q R [] f p q = tt
  All-both P Q R (w ∷ workers) f p q = (f w p.0 q.0, All-both P Q R workers f p.1 q.1)

  held_first :
      (w : Worker V) (workers : List (Worker V)) (phase : Phase V)
      → w.phase ≡ phase
      → IsUnique (w ∷ workers)
      → 0 < holds w.phase + holders workers
      → (0 < holders workers
          → (v : Worker V) × (rest : List (Worker V)) × (take_worker v.task.id workers
              ≡ some (v, rest))
            × (holds v.phase ≡ 1))
      → (v : Worker V) × (rest : List (Worker V)) × (take_worker v.task.id (w ∷ workers)
          ≡ some (v, rest))
        × (holds v.phase ≡ 1)
  unfolding take_worker
  held_first w workers waiting e u h later =
      let (v, rest, found, one) =
        later (omega (arith, subst (λ p. 0 < holds p + holders workers) e h)) in
      let other = All-taken (IsOther w.task.id) v.task.id workers rest v found u.0 in
      (v, w ∷ rest, rw (false_of w.task.id v.task.id (λ same. other.0 (sym same)), found) refl, one)
  held_first w workers (driving prompt history last_text) e u h later =
      (w, workers, take_worker-first w workers w.task.id refl, ap holds e)
  held_first w workers (asking history last_text) e u h later =
      (w, workers, take_worker-first w workers w.task.id refl, ap holds e)
  held_first w workers (ended status result) e u h later =
      (w, workers, take_worker-first w workers w.task.id refl, ap holds e)
  held_first w workers closing e u h later =
      (w, workers, take_worker-first w workers w.task.id refl, ap holds e)

  -- Where slots are held, a task that holds one can be taken.
  pub holder :
      (workers : List (Worker V))
      → IsUnique workers
      → 0 < holders workers
      → (w : Worker V) × (rest : List (Worker V)) × (take_worker w.task.id workers ≡ some (w, rest))
        × (holds w.phase ≡ 1)
  unfolding holders take_worker
  holder [] u h = absurd (omega (arith, h))
  holder (w ∷ workers) u h = held_first w workers w.phase refl u h (holder workers u.1)
