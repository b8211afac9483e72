-- ===== src/Base/Table.antt =====
-- An association list with keys compared by a test: what the programs use of `std::map`.
-- `insert` overwrites in place, `erase` removes, and an absent key is `none`.
use Prim.Native.Nat.{ℕ, ◌+◌}
use mathlib.Core.Path.{◌≡◌, refl}
use mathlib.Core.Logic.{◌↔◌, inl, inr}
use mathlib.Core.Bool.{Bool, true, false}
use mathlib.Core.Option.{Option, none, some}
use mathlib.Core.List.{List, [], ◌∷◌}
use native.Mathlib.Omega.{arith}
use zmqtests.Base.Tests.{if◌then◌else◌, Bool-cases}

-- Keys with a test that decides equality.
pub record Key (K : Type 0) : Type 0 where
  pub same : K → K → Bool
  pub same_iff : (a b : K) → (same a b ≡ true) ↔ (a ≡ b)

module _ {K V : Type 0} ⦃key : Key K⦄ where
  unfoldable pub lookup : K → List (K × V) → Option V
  lookup k [] = none
  lookup k ((j, v) ∷ m) = if key.same j k then some v else lookup k m

  unfoldable pub insert : K → V → List (K × V) → List (K × V)
  insert k v [] = (k, v) ∷ []
  insert k v ((j, w) ∷ m) = if key.same j k then (j, v) ∷ m else (j, w) ∷ insert k v m

  unfoldable pub erase : K → List (K × V) → List (K × V)
  erase k [] = []
  erase k ((j, w) ∷ m) = if key.same j k then erase k m else (j, w) ∷ erase k m

  pub lookup-insert :
      (k j : K) (v : V) (m : List (K × V))
      → lookup j (insert k v m) ≡ (if key.same k j then some v else lookup j m)
  unfolding lookup insert
  lookup-insert k j v [] = refl
  lookup-insert k j v ((i, w) ∷ m) =
      ground (arith, key.same_iff k j, key.same_iff i k, key.same_iff i j, lookup-insert k j v m)

  pub lookup-erase :
      (k j : K) (m : List (K × V))
      → lookup j (erase k m) ≡ (if key.same k j then none else lookup j m)
  unfolding lookup erase
  lookup-erase k j [] = ground arith
  lookup-erase k j ((i, w) ∷ m) =
      ground (arith, key.same_iff k j, key.same_iff i k, key.same_iff i j, lookup-erase k j m)

-- `operator[]` on an absent key makes the entry with the default value.
module _ {K V : Type 0} ⦃key : Key K⦄ (d : V) where
  unfoldable pub at : K → List (K × V) → V
  unfolding lookup
  at k m = elim (lookup k m) [ none ↦ d | some v ↦ v ]

  unfoldable pub touch : K → List (K × V) → List (K × V)
  touch k m = elim (lookup k m) [ none ↦ insert k d m | some v ↦ m ]

  pub at-insert :
      (k j : K) (v : V) (m : List (K × V))
      → at j (insert k v m) ≡ (if key.same k j then v else at j m)
  unfolding at
  at-insert k j v m = ground (arith, lookup-insert k j v m)

  pub at-touch : (k j : K) (m : List (K × V)) → at j (touch k m) ≡ at j m
  unfolding at touch
  at-touch k j m = ground (arith, lookup-insert k j d m, key.same_iff k j)

-- No key stands twice.
module _ {K V : Type 0} ⦃key : Key K⦄ where
  abbrev pub IsUnique : List (K × V) → Type 0
  IsUnique [] = Unit {0}
  IsUnique ((k, v) ∷ m) = (lookup k m ≡ none) × IsUnique m

  pub insert-IsUnique : (k : K) (v : V) (m : List (K × V)) → IsUnique m → IsUnique (insert k v m)
  unfolding insert lookup
  insert-IsUnique k v [] u = (refl, tt)
  insert-IsUnique k v ((j, w) ∷ m) u =
      ground (
        arith,
        lookup-insert k j v m,
        key.same_iff k j,
        key.same_iff j k,
        insert-IsUnique k v m u.1,
      )

  pub touch-IsUnique : (d : V) (k : K) (m : List (K × V)) → IsUnique m → IsUnique (touch d k m)
  unfolding touch
  touch-IsUnique d k m u = ground (arith, insert-IsUnique k d m u)

  -- A predicate holds of all entries exactly when it holds of all values that can be looked up.
  abbrev pub AllValues : (K → V → Type 0) → List (K × V) → Type 0
  AllValues P [] = Unit {0}
  AllValues P ((k, v) ∷ m) = P k v × AllValues P m

  pub AllValues-lookup :
      (P : K → V → Type 0) (k : K) (v : V) (m : List (K × V))
      → AllValues P m
      → lookup k m ≡ some v
      → P k v
  unfolding lookup
  AllValues-lookup P k v [] a e = cc
  AllValues-lookup P k v ((j, w) ∷ m) a e = elim (Bool-cases (key.same j k)) [
    | inl s ↦
        let p : j ≡ k = (key.same_iff j k).0 s in let q : w ≡ v = ground arith in rw (← p, ← q) a.0
    | inr n ↦ AllValues-lookup P k v m a.1 (ground arith)
  ]

  pub lookup-AllValues :
      (P : K → V → Type 0) (m : List (K × V))
      → IsUnique m
      → ((k : K) (v : V) → lookup k m ≡ some v → P k v)
      → AllValues P m
  unfolding lookup
  lookup-AllValues P [] u h = tt
  lookup-AllValues P ((j, w) ∷ m) u h = (
    h j w (rw ((key.same_iff j j).1 refl)),
    lookup-AllValues P m u.1 (λ k v e. h k v (ground (arith, key.same_iff j k))),
  )

abbrev pub one_if : Bool → ℕ
one_if true = 1
one_if false = 0

-- How many entries have a value that passes a test.
module _ {K V : Type 0} ⦃key : Key K⦄ (test : V → Bool) where
  unfoldable pub held : List (K × V) → ℕ
  held [] = 0
  held ((k, v) ∷ m) = one_if (test v) + held m

  pub held-insert :
      (k : K) (v : V) (m : List (K × V))
      → lookup k m ≡ none
      → held (insert k v m) ≡ held m + one_if (test v)
  unfolding held insert lookup
  held-insert k v [] e = omega arith
  held-insert k v ((j, w) ∷ m) e = ground (arith, held-insert k v m)

  pub held-erase_absent : (k : K) (m : List (K × V)) → lookup k m ≡ none → held (erase k m) ≡ held m
  unfolding held erase lookup
  held-erase_absent k [] e = refl
  held-erase_absent k ((j, w) ∷ m) e = ground (arith, held-erase_absent k m)

  pub held-erase :
      (k : K) (v : V) (m : List (K × V))
      → IsUnique m
      → lookup k m ≡ some v
      → held (erase k m) + one_if (test v) ≡ held m
  unfolding held erase lookup
  held-erase k v [] u e = cc
  held-erase k v ((j, w) ∷ m) u e = elim (Bool-cases (key.same j k)) [
    | inl s ↦
        let p : j ≡ k = (key.same_iff j k).0 s in
        let gone : lookup k m ≡ none = rw (← p) (u.0) in ground (arith, held-erase_absent k m gone)
    | inr n ↦ ground (arith, held-erase k v m u.1)
  ]

module _ {K V : Type 0} ⦃key : Key K⦄ where
  pub erase-IsUnique : (k : K) (m : List (K × V)) → IsUnique m → IsUnique (erase k m)
  unfolding erase lookup
  erase-IsUnique k [] u = tt
  erase-IsUnique k ((j, w) ∷ m) u = ground (arith, lookup-erase k j m, erase-IsUnique k m u.1)
