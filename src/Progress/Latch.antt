-- ===== src/Progress/Latch.antt =====
-- A bit that events set and clear, read off the list of the events.
use gocode.Base.{
  ◌≡◌, refl, ap, ◌∙◌, ◌↔◌, ◌⊎◌, inl, inr, Bool, true, false, ◌&&◌, not, List, [], ◌∷◌, ◌++◌, arith,
  All, if◌then◌else◌, Bool-cases,
}

-- A bit that some events set and others clear.
module _ {E : Type 0} (sets clears : E → Bool) where
  abbrev pub latch : Bool → List E → Bool
  latch b [] = b
  latch b (e ∷ es) = latch (if sets e then true else if clears e then false else b) es

  -- An event that clears the bit and does not set it.
  abbrev pub Quiet : List E → Type 0
  Quiet es = All (λ e. (not (sets e) && clears e) ≡ false) es

  -- The last of the events that set the bit comes after all that clear it.
  pub record SetAtLast (es : List E) : Type 0 where
    pub earlier : List E
    pub event : E
    pub later : List E
    pub split : es ≡ earlier ++ event ∷ later
    pub set : sets event ≡ true
    pub quiet : Quiet later

  latch-Quiet : (es : List E) → Quiet es → latch true es ≡ true
  latch-Quiet [] q = refl
  latch-Quiet (e ∷ es) q = elim (Bool-cases (sets e)) [
    | inl yes_sets ↦ rw yes_sets (latch-Quiet es q.1)
    | inr no_sets ↦ elim (Bool-cases (clears e)) [
      | inl clear ↦ absurd (ground arith)
      | inr keep ↦ rw (no_sets, keep) (latch-Quiet es q.1)
    ]
  ]

  SetAtLast-cons : (e : E) (es : List E) → SetAtLast es → SetAtLast (e ∷ es)
  SetAtLast-cons e es s = record {
    earlier = e ∷ s.earlier;
    event = s.event;
    later = s.later;
    split = ap (λ l. e ∷ l) s.split;
    set = s.set;
    quiet = s.quiet;
  }

  latch-SetAtLast :
      (b : Bool) (es : List E) → latch b es ≡ true → SetAtLast es ⊎ ((b ≡ true) × Quiet es)
  latch-SetAtLast b [] h = inr (h, tt)
  latch-SetAtLast b (e ∷ es) h = elim (Bool-cases (sets e)) [
    | inl yes_sets ↦ elim (latch-SetAtLast true es (rw yes_sets at h)) [
      | inl s ↦ inl (SetAtLast-cons e es s)
      | inr (_, q) ↦
          inl (record {
            earlier = [];
            event = e;
            later = es;
            split = refl;
            set = yes_sets;
            quiet = q;
          })
    ]
    | inr no_sets ↦ elim (Bool-cases (clears e)) [
      | inl clear ↦ elim (latch-SetAtLast false es (rw (no_sets, clear) at h)) [
        | inl s ↦ inl (SetAtLast-cons e es s)
        | inr (z, q) ↦ cc z
      ]
      | inr keep ↦ elim (latch-SetAtLast b es (rw (no_sets, keep) at h)) [
        | inl s ↦ inl (SetAtLast-cons e es s)
        | inr (t, q) ↦ inr (t, (ground arith, q))
      ]
    ]
  ]

  latch-append : (b : Bool) (xs ys : List E) → latch b (xs ++ ys) ≡ latch (latch b xs) ys
  latch-append b [] ys = refl
  latch-append b (x ∷ xs) ys =
      latch-append (if sets x then true else if clears x then false else b) xs ys

  SetAtLast-latch : (b : Bool) (es : List E) → SetAtLast es → latch b es ≡ true
  SetAtLast-latch b es s =
      ap (latch b) s.split
      ∙ latch-append b s.earlier (s.event ∷ s.later)
      ∙ rw s.set (latch-Quiet s.later s.quiet)

  pub latch_iff : (es : List E) → (latch false es ≡ true) ↔ SetAtLast es
  latch_iff es = (
    λ h. elim (latch-SetAtLast false es h) [ inl s ↦ s | inr (z, q) ↦ cc z ],
    SetAtLast-latch false es,
  )
