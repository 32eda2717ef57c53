-- ===== src/X11/Overdue.antt =====
-- The entries of a table of requests that are overdue, whatever the order of the walk.
use mathlib.Core.List.{Perm, Permᴰ}
use mathlib.Core.Logic.{∥∥₁_elim}
use mathlib.Core.Bool.{Bool-set}
use clipbus.Base.{
  ℕ, ◌≡◌, ◌∷◌, [], List, lookup, remove, lookup-remove, Table, Entries, Entries-remove, Entries-imp,
  not, arith, Bool, true, false, ◌&&◌, if◌then◌else◌, refl, sym, ◌∙◌, inl, inr, leb, ◌==◌, ==_refl,
  Bool-cases, Bool-cases,
}
use clipbus.X11.State.{PendingRequest, deadline}
use clipbus.X11.Server.{World}
use clipbus.X11.Events.{expired}

-- whether a list of ids has this one
abbrev pub has : ℕ → List ℕ → Bool
has k [] = false
has k (j ∷ js) = if j == k then true else has k js

-- whether all entries pass
abbrev pub all : (ℕ × PendingRequest → Bool) → Table PendingRequest → Bool
all test [] = true
all test (e ∷ m) = test e && all test m

and_swap : (a b c : Bool) → (a && (b && c)) ≡ (b && (a && c))
and_swap a b c = ground arith

all-Permᴰ :
    (test : ℕ × PendingRequest → Bool) {m n : Table PendingRequest}
    → Permᴰ m n
    → all test m ≡ all test n
all-Permᴰ test Permᴰ.nil = refl
all-Permᴰ test (Permᴰ.cons {a = a} {b = b} e p) = rw (e, all-Permᴰ test p)
all-Permᴰ test (Permᴰ.swap {a = a} {b = b} {l = l} e f) =
    rw (sym e, sym f, and_swap (test a) (test b) (all test l))
all-Permᴰ test (Permᴰ.trans p q) = all-Permᴰ test p ∙ all-Permᴰ test q

pub all-Perm :
    (test : ℕ × PendingRequest → Bool) (m n : Table PendingRequest)
    → Perm m n
    → all test m ≡ all test n
all-Perm test m n p = ∥∥₁_elim p (Bool-set (all test m) (all test n)) (all-Permᴰ test)

-- an entry that is overdue has its key among the ids
abbrev pub found : ℕ → List ℕ → ℕ × PendingRequest → Bool
found t ids (k, v) = if leb (deadline v) t then has k ids else true

-- an entry with this key is not overdue
abbrev pub spared : ℕ → ℕ → ℕ × PendingRequest → Bool
spared t k (j, v) = if j == k then not (leb (deadline v) t) else true

abbrev pub removes : List ℕ → Table PendingRequest → Table PendingRequest
removes [] m = m
removes (k ∷ ks) m = removes ks (remove k m)

pub lookup-removes :
    (ids : List ℕ) (k : ℕ) (m : Table PendingRequest)
    → has k ids ≡ false
    → lookup k (removes ids m) ≡ lookup k m
lookup-removes [] k m h = refl
lookup-removes (j ∷ ids) k m h =
    ground (arith, lookup-removes ids k (remove j m), lookup-remove j k m)

pub Entries-removes :
    (P : ℕ → PendingRequest → Type 0) (ids : List ℕ) (m : Table PendingRequest)
    → Entries P m
    → Entries P (removes ids m)
Entries-removes P [] m h = h
Entries-removes P (k ∷ ks) m h = Entries-removes P ks (remove k m) (Entries-remove P k m h)

Entries-other : (k : ℕ) (m : Table PendingRequest) → Entries (λ j v. (j == k) ≡ false) (remove k m)
unfolding remove
Entries-other k [] = tt
Entries-other k ((j, v) ∷ m) = ground (arith, Entries-other k m)

pub Entries-both :
    (P Q : ℕ → PendingRequest → Type 0) (m : Table PendingRequest)
    → Entries P m
    → Entries Q m
    → Entries (λ k v. P k v × Q k v) m
Entries-both P Q [] h k = tt
Entries-both P Q ((j, v) ∷ m) h k = ((h.0, k.0), Entries-both P Q m h.1 k.1)

pub Entries-unlisted :
    (ids : List ℕ) (m : Table PendingRequest) → Entries (λ j v. has j ids ≡ false) (removes ids m)
Entries-unlisted [] [] = tt
Entries-unlisted [] (e ∷ m) = (refl, Entries-unlisted [] m)
Entries-unlisted (k ∷ ks) m =
    Entries-imp (λ j v. ((j == k) ≡ false) × (has j ks ≡ false)) _ (removes ks (remove k m))
      (λ j v h. ground arith)
      (Entries-both _ _ (removes ks (remove k m))
        (Entries-removes _ ks (remove k m) (Entries-other k m)) (Entries-unlisted ks (remove k m)))

module _ ⦃w : World⦄ where
  pub found-expired :
      (t : ℕ) (ids : List ℕ) (m : Table PendingRequest)
      → ((k : ℕ) → has k (expired t m) ≡ true → has k ids ≡ true)
      → all (found t ids) m ≡ true
  unfolding expired
  found-expired t ids [] h = refl
  found-expired t ids ((k, v) ∷ m) h = elim (Bool-cases (leb (deadline v) t)) [
    | inl late ↦ ground (arith, h k, ==_refl k, found-expired t ids m (λ j q. h j (ground arith)))
    | inr early ↦ ground (arith, found-expired t ids m (λ j q. h j (ground arith)))
  ]

  pub spared-expired :
      (t k : ℕ) (m : Table PendingRequest) → all (spared t k) m ≡ true → has k (expired t m) ≡ false
  unfolding expired
  spared-expired t k [] h = refl
  spared-expired t k ((j, v) ∷ m) h = ground (arith, spared-expired t k m)

  pub all-Entries :
      (P : ℕ → PendingRequest → Type 0) (test : ℕ × PendingRequest → Bool)
      (m : Table PendingRequest)
      → ((k : ℕ) (v : PendingRequest) → test (k, v) ≡ true → P k v)
      → all test m ≡ true
      → Entries P m
  all-Entries P test [] f h = tt
  all-Entries P test ((k, v) ∷ m) f h =
      (f k v (ground arith), all-Entries P test m f (ground arith))

  pub Entries-all :
      (P : ℕ → PendingRequest → Type 0) (test : ℕ × PendingRequest → Bool)
      (m : Table PendingRequest)
      → ((k : ℕ) (v : PendingRequest) → P k v → test (k, v) ≡ true)
      → Entries P m
      → all test m ≡ true
  Entries-all P test [] f h = refl
  Entries-all P test ((k, v) ∷ m) f h = ground (arith, f k v h.0, Entries-all P test m f h.1)
