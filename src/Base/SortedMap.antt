-- ===== src/Base/SortedMap.antt =====
-- `BTreeMap<usize, V>`: a list of entries whose keys rise.
use Prim.Native.Nat.{ℕ, suc, ◌≤◌, ◌<◌}
use mathlib.Core.Path.{◌≡◌, refl}
use mathlib.Core.Option.{Option, none, some}
use mathlib.Core.List.{List, [], ◌∷◌}
use native.Mathlib.Omega.{arith}
use gocode.Base.Tests.{ltb, ◌==◌, if◌then◌else◌, is_some}
use gocode.Base.Lists.{length, All}

abbrev pub SortedMap {ℓ} : Type ℓ → Type ℓ
SortedMap V = List (ℕ × V)

module _ {ℓ} {V : Type ℓ} where
  unfoldable pub lookup : ℕ → SortedMap V → Option V
  lookup k [] = none
  lookup k ((j, v) ∷ m) = let rest = lookup k m in if j == k then some v else rest

  unfoldable pub insert : ℕ → V → SortedMap V → SortedMap V
  insert k v [] = (k, v) ∷ []
  insert k v ((j, w) ∷ m) =
      let rest = insert k v m in
      if ltb k j then (k, v) ∷ (j, w) ∷ m else if j == k then (k, v) ∷ m else (j, w) ∷ rest

  -- Every key lies above `k`.
  abbrev pub IsAbove : ℕ → SortedMap V → Type 0
  IsAbove k [] = Unit
  IsAbove k ((j, v) ∷ m) = (k < j) × IsAbove k m

  abbrev pub IsSorted : SortedMap V → Type 0
  IsSorted [] = Unit
  IsSorted ((j, v) ∷ m) = IsAbove j m × IsSorted m

  IsAbove-insert :
      (k j : ℕ) (v : V) (m : SortedMap V) → k < j → IsAbove k m → IsAbove k (insert j v m)
  unfolding insert
  IsAbove-insert k j v [] h a = (h, tt)
  IsAbove-insert k j v ((i, w) ∷ m) h a = ground (arith, IsAbove-insert k j v m h a.1)

  IsAbove-trans : (k j : ℕ) (m : SortedMap V) → k < j → IsAbove j m → IsAbove k m
  IsAbove-trans k j [] h a = tt
  IsAbove-trans k j ((i, w) ∷ m) h a = (omega arith, IsAbove-trans k j m h a.1)

  pub IsSorted-insert : (k : ℕ) (v : V) (m : SortedMap V) → IsSorted m → IsSorted (insert k v m)
  unfolding insert
  IsSorted-insert k v [] s = (tt, tt)
  IsSorted-insert k v ((j, w) ∷ m) s =
      ground (arith, IsSorted-insert k v m s.1, IsAbove-insert j k v m, IsAbove-trans k j m)

  pub lookup-insert :
      (k j : ℕ) (v : V) (m : SortedMap V)
      → lookup j (insert k v m) ≡ (if k == j then some v else lookup j m)
  unfolding lookup insert
  lookup-insert k j v [] = ground arith
  lookup-insert k j v ((i, w) ∷ m) = ground (arith, lookup-insert k j v m)

  lookup_below : (k j : ℕ) (m : SortedMap V) → k ≤ j → IsAbove j m → lookup k m ≡ none
  unfolding lookup
  lookup_below k j [] h a = refl
  lookup_below k j ((i, w) ∷ m) h a = ground (arith, lookup_below k j m h a.1)

  pub length-insert :
      (k : ℕ) (v : V) (m : SortedMap V)
      → IsSorted m
      → length (insert k v m) ≡ (if is_some (lookup k m) then length m else suc (length m))
  unfolding lookup insert
  length-insert k v [] s = refl
  length-insert k v ((i, w) ∷ m) s = ground (arith, length-insert k v m s.1, lookup_below k i m)

  pub All-insert {κ} :
      (P : V → Type κ) (k : ℕ) (v : V) (m : SortedMap V)
      → P v
      → All (λ e. P e.1) m
      → All (λ e. P e.1) (insert k v m)
  unfolding insert
  All-insert P k v [] p h = (p, tt)
  All-insert P k v ((i, w) ∷ m) p h = ground (arith, All-insert P k v m p h.1)

  pub insert-insert :
      (k : ℕ) (v w : V) (m : SortedMap V) → IsSorted m → insert k w (insert k v m) ≡ insert k w m
  unfolding insert
  insert-insert k v w [] s = ground arith
  insert-insert k v w ((i, x) ∷ m) s = ground (arith, insert-insert k v w m s.1)
