-- ===== src/Base/Maps.antt =====
-- Go's maps as association lists. The order of the entries is the order in which a `range` loop of
-- the model goes through the map; Go leaves that order open.
use Prim.Native.Nat.{ℕ, suc, ◌+◌, ◌≤◌}
use mathlib.Core.Path.{◌≡◌, refl}
use mathlib.Core.Logic.{◌⊎◌}
use mathlib.Core.Bool.{Bool, true, false}
use mathlib.Core.Option.{Option, none, some}
use mathlib.Core.List.{List, [], ◌∷◌}
use native.Mathlib.Omega.{arith}
use neo_transcoder.Base.Tests.{Eq, ◌==◌, if◌then◌else◌}

abbrev pub Table : Type 0 → Type 0 → Type 0
Table K V = List (K × V)

module _ {K V : Type 0} where
  -- How many entries hold a value that passes a test.
  unfoldable pub tally : (V → Bool) → Table K V → ℕ
  tally p [] = 0
  tally p ((k, v) ∷ t) = let rest = tally p t in if p v then suc rest else rest

  -- len(m)
  abbrev pub size : Table K V → ℕ
  size t = tally (λ _. true) t

  unfoldable pub values : Table K V → List V
  values [] = []
  values ((k, v) ∷ t) = v ∷ values t

  -- A `range` loop that looks for a value that passes a test.
  unfoldable pub any_value : (V → Bool) → Table K V → Bool
  any_value p [] = false
  any_value p ((k, v) ∷ t) = let rest = any_value p t in if p v then true else rest

module _ {K V : Type 0} ⦃e : Eq K⦄ where
  -- v, ok := m[k]
  unfoldable pub lookup : K → Table K V → Option V
  lookup k [] = none
  lookup k ((j, v) ∷ t) = if j == k then some v else lookup k t

  -- m[k] = v
  unfoldable pub insert : K → V → Table K V → Table K V
  insert k v [] = (k, v) ∷ []
  insert k v ((j, w) ∷ t) = let rest = insert k v t in if j == k then (k, v) ∷ t else (j, w) ∷ rest

  -- delete(m, k)
  unfoldable pub delete : K → Table K V → Table K V
  delete k [] = []
  delete k ((j, w) ∷ t) = let rest = delete k t in if j == k then rest else (j, w) ∷ rest

  pub lookup-insert :
      (k j : K) (v : V) (t : Table K V)
      → lookup j (insert k v t) ≡ (if k == j then some v else lookup j t)
  unfolding lookup insert
  lookup-insert k j v [] = refl
  lookup-insert k j v ((i, w) ∷ t) =
      ground (arith, e.same_iff k j, e.same_iff i k, e.same_iff i j, lookup-insert k j v t)

  pub lookup-delete :
      (k j : K) (t : Table K V) → lookup j (delete k t) ≡ (if k == j then none else lookup j t)
  unfolding lookup delete
  lookup-delete k j [] = ground arith
  lookup-delete k j ((i, w) ∷ t) =
      ground (arith, e.same_iff k j, e.same_iff i k, e.same_iff i j, lookup-delete k j t)

  -- Each key stands once.
  unfoldable pub Unique : Table K V → Type 0
  Unique [] = Unit
  Unique ((k, v) ∷ t) = (lookup k t ≡ none) × Unique t

module _ {K V : Type 0} ⦃e : Eq K⦄ where
  -- A loop that finds no value has tested every entry.
  pub any_value-lookup :
      (p : V → Bool) (t : Table K V) (k : K) (v : V)
      → any_value p t ≡ false
      → lookup k t ≡ some v
      → p v ≡ false
  unfolding any_value lookup
  any_value-lookup p [] k v h found = cc
  any_value-lookup p ((j, w) ∷ t) k v h found = ground (arith, any_value-lookup p t k v)

  -- What is found after an insertion is the new value, or was found before.
  pub found-insert :
      (k j : K) (v w : V) (t : Table K V)
      → lookup j (insert k v t) ≡ some w
      → ((k ≡ j) × (v ≡ w)) ⊎ ((lookup j t ≡ some w) × ((k == j) ≡ false))
  found-insert k j v w t h = ground (arith, lookup-insert k j v t, e.same_iff k j)

  -- What is found after a deletion was found before.
  pub found-delete :
      (k j : K) (w : V) (t : Table K V)
      → lookup j (delete k t) ≡ some w
      → (lookup j t ≡ some w) × ((k == j) ≡ false)
  found-delete k j w t h = ground (arith, lookup-delete k j t)

-- 1 where a value passes a test.
abbrev pub one_if : Bool → ℕ
one_if b = if b then 1 else 0

module _ {K V : Type 0} where
  -- A `range` loop that deletes each entry whose value fails a test.
  unfoldable pub retain : (V → Bool) → Table K V → Table K V
  retain p [] = []
  retain p ((k, v) ∷ t) = let rest = retain p t in if p v then (k, v) ∷ rest else rest

  pub tally-retain-le : (q p : V → Bool) (t : Table K V) → tally q (retain p t) ≤ tally q t
  unfolding retain tally
  tally-retain-le q p [] = omega arith
  tally-retain-le q p ((k, v) ∷ t) = ground (arith, tally-retain-le q p t)

module _ {K V : Type 0} ⦃e : Eq K⦄ where
  delete_absent : (k : K) (t : Table K V) → lookup k t ≡ none → delete k t ≡ t
  unfolding lookup delete
  delete_absent k [] h = refl
  delete_absent k ((i, w) ∷ t) h = ground (arith, delete_absent k t)

  pub Unique-insert : (k : K) (v : V) (t : Table K V) → Unique t → Unique (insert k v t)
  unfolding Unique insert
  Unique-insert k v [] u = (unfold lookup in refl, tt)
  Unique-insert k v ((i, w) ∷ t) (a, u) = ground (
    arith,
    e.same_iff i k,
    e.same_iff k i,
    lookup-insert k i v t,
    Unique-insert k v t,
    e.same_iff k k,
  )

  pub Unique-delete : (k : K) (t : Table K V) → Unique t → Unique (delete k t)
  unfolding Unique delete
  Unique-delete k [] u = u
  Unique-delete k ((i, w) ∷ t) (a, u) = ground (arith, lookup-delete k i t, Unique-delete k t u)

  -- Deleting a present key takes its one value out of every tally.
  pub tally-delete :
      (p : V → Bool) (k : K) (t : Table K V) (v : V)
      → Unique t
      → lookup k t ≡ some v
      → tally p (delete k t) + one_if (p v) ≡ tally p t
  unfolding Unique lookup delete tally
  tally-delete p k [] v u h = cc
  tally-delete p k ((i, w) ∷ t) v (a, u) h =
      ground (arith, e.same_iff i k, delete_absent k t, tally-delete p k t v u)

  pub tally-delete-le : (p : V → Bool) (k : K) (t : Table K V) → tally p (delete k t) ≤ tally p t
  unfolding delete tally
  tally-delete-le p k [] = omega arith
  tally-delete-le p k ((i, w) ∷ t) = ground (arith, tally-delete-le p k t)

  -- An insertion under a new key adds its value to every tally.
  pub tally-insert_new :
      (p : V → Bool) (k : K) (v : V) (t : Table K V)
      → lookup k t ≡ none
      → tally p (insert k v t) ≡ tally p t + one_if (p v)
  unfolding lookup insert tally
  tally-insert_new p k v [] h = ground arith
  tally-insert_new p k v ((i, w) ∷ t) h = ground (arith, tally-insert_new p k v t)

  -- Any insertion adds at most its own value.
  pub tally-insert-le :
      (p : V → Bool) (k : K) (v : V) (t : Table K V)
      → tally p (insert k v t) ≤ tally p t + one_if (p v)
  unfolding insert tally
  tally-insert-le p k v [] = ground arith
  tally-insert-le p k v ((i, w) ∷ t) = ground (arith, tally-insert-le p k v t)

  -- Replacing the value of a present key moves one value between tallies.
  pub tally-insert_present :
      (p : V → Bool) (k : K) (v w : V) (t : Table K V)
      → lookup k t ≡ some w
      → tally p (insert k v t) + one_if (p w) ≡ tally p t + one_if (p v)
  unfolding lookup insert tally
  tally-insert_present p k v w [] h = cc
  tally-insert_present p k v w ((i, x) ∷ t) h = ground (arith, tally-insert_present p k v w t)
