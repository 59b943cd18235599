-- ===== src/Prelude/Assoc.antt =====
-- Go maps with string keys, as association lists. Iteration order is the list's order.
use Prim.Native.Nat.{ℕ, ◌+◌, ◌≤◌}
use mathlib.Core.Path.{◌≡◌, refl}
use mathlib.Core.Bool.{Bool, true, false, not, ◌&&◌, ◌||◌}
use mathlib.Core.Logic.{inl, inr}
use mathlib.Core.Option.{Option, none, some}
use mathlib.Core.List.{List, [], ◌∷◌}
use native.Mathlib.Omega.{arith}
use mysql_mcp_server.Prelude.Tests.{if◌then◌else◌, Bool-cases}
use mysql_mcp_server.Prelude.Text.{Bytes, equal, equal_iff}

abbrev pub Map : Type 0 → Type 0
Map V = List (Bytes × V)

module _ {V : Type 0} where
  unfoldable pub lookup : Bytes → Map V → Option V
  unfolding equal
  lookup k [] = none
  lookup k ((j, v) ∷ m) = if equal j k then some v else lookup k m

  -- `_, ok := m[k]`
  unfoldable pub has : Bytes → Map V → Bool
  unfolding equal
  has k [] = false
  has k ((j, v) ∷ m) = equal j k || has k m

  -- `m[k] = v`
  unfoldable pub insert : Bytes → V → Map V → Map V
  unfolding equal
  insert k v [] = (k, v) ∷ []
  insert k v ((j, w) ∷ m) = if equal j k then (k, v) ∷ m else (j, w) ∷ insert k v m

  -- `delete(m, k)`
  unfoldable pub delete : Bytes → Map V → Map V
  unfolding equal
  delete k [] = []
  delete k ((j, w) ∷ m) = let rest = delete k m in if equal j k then rest else (j, w) ∷ rest

  -- How many keys pass a test.
  unfoldable pub count : (Bytes → Bool) → Map V → ℕ
  count p [] = 0
  count p ((j, w) ∷ m) = (if p j then 1 else 0) + count p m

module _ {V : Type 0} where
  pub lookup-insert :
      (k j : Bytes) (v : V) (m : Map V)
      → lookup j (insert k v m) ≡ (if equal k j then some v else lookup j m)
  unfolding lookup insert
  lookup-insert k j v [] = refl
  lookup-insert k j v ((i, w) ∷ m) =
      ground (arith, equal_iff k j, equal_iff i k, equal_iff i j, lookup-insert k j v m)

  pub lookup-delete :
      (k j : Bytes) (m : Map V) → lookup j (delete k m) ≡ (if equal k j then none else lookup j m)
  unfolding lookup delete
  lookup-delete k j [] = ground arith
  lookup-delete k j ((i, w) ∷ m) =
      ground (arith, equal_iff k j, equal_iff i k, equal_iff i j, lookup-delete k j m)

  pub has-insert : (k j : Bytes) (v : V) (m : Map V) → has j (insert k v m) ≡ (equal k j || has j m)
  unfolding has insert
  has-insert k j v [] = refl
  has-insert k j v ((i, w) ∷ m) =
      ground (arith, equal_iff k j, equal_iff i k, equal_iff i j, has-insert k j v m)

  pub has-delete : (k j : Bytes) (m : Map V) → has j (delete k m) ≡ (not (equal k j) && has j m)
  unfolding has delete
  has-delete k j [] = ground arith
  has-delete k j ((i, w) ∷ m) =
      ground (arith, equal_iff k j, equal_iff i k, equal_iff i j, has-delete k j m)

  pub has-lookup : (k : Bytes) (m : Map V) → has k m ≡ true → (v : V) × (lookup k m ≡ some v)
  unfolding has lookup
  has-lookup k [] h = elim (Bool-cases false) [ inl e ↦ absurd (cc) | inr e ↦ absurd (cc) ]
  has-lookup k ((i, w) ∷ m) h = elim (Bool-cases (equal i k)) [
    | inl e ↦ (w, rw e refl)
    | inr e ↦ let (v, f) = has-lookup k m (rw e at h) in (v, rw e f)
  ]

  pub count-insert :
      (p : Bytes → Bool) (k : Bytes) (v : V) (m : Map V)
      → count p (insert k v m) ≡ count p m + (if has k m then 0 else if p k then 1 else 0)
  unfolding count insert has
  count-insert p k v [] = ground arith
  count-insert p k v ((i, w) ∷ m) = ground (arith, equal_iff i k, count-insert p k v m)

  pub count-delete : (p : Bytes → Bool) (k : Bytes) (m : Map V) → count p (delete k m) ≤ count p m
  unfolding count delete
  count-delete p k [] = omega arith
  count-delete p k ((i, w) ∷ m) = ground (arith, count-delete p k m)

  -- Deleting a key that passes the test lowers the count.
  pub count-delete-has :
      (p : Bytes → Bool) (k : Bytes) (m : Map V)
      → has k m ≡ true
      → p k ≡ true
      → count p (delete k m) + 1 ≤ count p m
  unfolding count delete has
  count-delete-has p k [] h q = absurd (cc)
  count-delete-has p k ((i, w) ∷ m) h q =
      ground (arith, equal_iff i k, count-delete-has p k m, count-delete p k m)

  -- A test that excludes the key `k` counts less.
  pub count-le :
      (p q : Bytes → Bool) (m : Map V)
      → ((j : Bytes) → p j ≡ true → q j ≡ true)
      → count p m ≤ count q m
  unfolding count
  count-le p q [] h = omega arith
  count-le p q ((i, w) ∷ m) h = ground (arith, h i, count-le p q m h)

  pub count-lt :
      (p q : Bytes → Bool) (k : Bytes) (m : Map V)
      → ((j : Bytes) → p j ≡ true → q j ≡ true)
      → has k m ≡ true
      → p k ≡ false
      → q k ≡ true
      → count p m + 1 ≤ count q m
  unfolding count has
  count-lt p q k [] h e f g = absurd (cc)
  count-lt p q k ((i, w) ∷ m) h e f g =
      ground (arith, equal_iff i k, h i, count-le p q m h, count-lt p q k m h)

  -- The test `q` admits one key more than `p`, which stands in the map at most once.
  pub count-add :
      (p q : Bytes → Bool) (k : Bytes) (m : Map V)
      → ((j : Bytes) → q j ≡ true → (p j || equal j k) ≡ true)
      → count q m ≤ count p m + count (λ j. equal j k) m
  unfolding count
  count-add p q k [] h = omega arith
  count-add p q k ((i, w) ∷ m) h = ground (arith, h i, count-add p q k m h)

  pub count-absent : (k : Bytes) (m : Map V) → has k m ≡ false → count (λ j. equal j k) m ≡ 0
  unfolding count has
  count-absent k [] h = refl
  count-absent k ((i, w) ∷ m) h = ground (arith, count-absent k m)
