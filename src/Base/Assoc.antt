-- ===== src/Base/Assoc.antt =====
-- HashMap with numbers as keys: an association list. The order in which Rust iterates over one is
-- not that of the list: it is asked of the world (World.antt).
use Prim.Native.Nat.{ℕ}
use mathlib.Core.Path.{◌≡◌}
use mathlib.Core.Option.{Option, none, some}
use mathlib.Core.List.{List, [], ◌∷◌}
use native.Mathlib.Omega.{arith}
use clipbus.Base.Tests.{◌==◌, if◌then◌else◌}

abbrev pub Table : Type 0 → Type 0
Table V = List (ℕ × V)

module _ {V : Type 0} where
  unfoldable pub lookup : ℕ → Table V → Option V
  lookup k [] = none
  lookup k ((j, v) ∷ m) = if j == k then some v else lookup k m

  -- HashMap::remove, without the value that it returns
  unfoldable pub remove : ℕ → Table V → Table V
  remove k [] = []
  remove k ((j, v) ∷ m) = if j == k then remove k m else (j, v) ∷ remove k m

  unfoldable pub insert : ℕ → V → Table V → Table V
  unfolding remove
  insert k v m = (k, v) ∷ remove k m

  pub lookup-remove :
      (k j : ℕ) (m : Table V) → lookup j (remove k m) ≡ (if k == j then none else lookup j m)
  unfolding lookup remove
  lookup-remove k j [] = ground arith
  lookup-remove k j ((i, v) ∷ m) = ground (arith, lookup-remove k j m)

  pub lookup-insert :
      (k j : ℕ) (v : V) (m : Table V)
      → lookup j (insert k v m) ≡ (if k == j then some v else lookup j m)
  unfolding lookup insert
  lookup-insert k j v m = ground (arith, lookup-remove k j m)

  pub lookup-removed : (k : ℕ) (m : Table V) → lookup k (remove k m) ≡ none
  lookup-removed k m = ground (arith, lookup-remove k k m)

  pub lookup-inserted : (k : ℕ) (v : V) (m : Table V) → lookup k (insert k v m) ≡ some v
  lookup-inserted k v m = ground (arith, lookup-insert k k v m)

  -- Every entry has P, which may name its key.
  abbrev pub Entries : (ℕ → V → Type 0) → Table V → Type 0
  Entries P [] = Unit {0}
  Entries P ((k, v) ∷ m) = P k v × Entries P m

module _ {V : Type 0} (P : ℕ → V → Type 0) where
  pub Entries-remove : (k : ℕ) (m : Table V) → Entries P m → Entries P (remove k m)
  unfolding remove
  Entries-remove k [] h = tt
  Entries-remove k ((j, v) ∷ m) h = ground (arith, Entries-remove k m h.1)

  pub Entries-insert :
      (k : ℕ) (v : V) (m : Table V) → P k v → Entries P m → Entries P (insert k v m)
  unfolding insert
  Entries-insert k v m p h = (p, Entries-remove k m h)

  pub Entries-lookup : (k : ℕ) (v : V) (m : Table V) → Entries P m → lookup k m ≡ some v → P k v
  unfolding lookup
  Entries-lookup k v [] h e = cc
  Entries-lookup k v ((j, w) ∷ m) h e = ground (arith, Entries-lookup k v m h.1)

  pub Entries-imp :
      (Q : ℕ → V → Type 0) (m : Table V)
      → ((k : ℕ) (v : V) → P k v → Q k v)
      → Entries P m
      → Entries Q m
  Entries-imp Q [] f h = tt
  Entries-imp Q ((k, v) ∷ m) f h = (f k v h.0, Entries-imp Q m f h.1)
