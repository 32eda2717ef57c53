-- ===== src/X11/Chunks.antt =====
-- What is written to one property, as a list of chunks.
use clipbus.Base.{
  ℕ, zero, suc, ◌≤◌, ◌+◌, ◌≡◌, ◌++◌, ◌∷◌, [], List, ◌&&◌, length, take, drop, take-append-drop,
  ◌==◌, ==_refl, if◌then◌else◌, arith, refl, sym, ap, inl, inr, ◌⊎◌, ◌∙◌,
}
use mathlib.Core.List.{append-nil}
use clipbus.Text.{Text}
use clipbus.Trace.{Act, Trace, Window, Atom}

-- The payloads written to this property, in the order in which they were written.
abbrev pub write_of : Window → Atom → Act → List Text
write_of window property (Act.change_property8 win p type_ payload) =
    if (win == window) && (p == property) then payload ∷ [] else []
write_of window property _ = []

abbrev pub writes : Window → Atom → Trace → List Text
writes window property [] = []
writes window property (a ∷ t) = writes window property t ++ write_of window property a

abbrev pub concat : List Text → Text
concat [] = []
concat (c ∷ cs) = c ++ concat cs

-- each chunk has at least one byte and at most `size`
abbrev pub Chunks : ℕ → List Text → Type 0
Chunks size [] = Unit {0}
Chunks size (c ∷ cs) = (1 ≤ length c) × (length c ≤ size) × Chunks size cs

module _ {ℓ} {A : Type ℓ} where
  pub drop-nil : (k : ℕ) → drop {A = A} k [] ≡ []
  drop-nil zero = refl
  drop-nil (suc k) = refl

  drop-drop : (k o : ℕ) (xs : List A) → drop k (drop o xs) ≡ drop (o + k) xs
  drop-drop k zero xs = ap (λ n. drop n xs) (omega arith)
  drop-drop k (suc o) [] = rw (drop-nil k, drop-nil (suc o + k))
  drop-drop k (suc o) (x ∷ xs) =
      let e : suc (o + k) ≡ suc o + k = omega arith in
      drop-drop k o xs ∙ ap (λ n. drop n (x ∷ xs)) e

  pub slice-append-drop :
      (o k : ℕ) (xs : List A) → take k (drop o xs) ++ drop (o + k) xs ≡ drop o xs
  slice-append-drop o k xs = rw (sym (drop-drop k o xs), take-append-drop k (drop o xs))

  pub List-cases : (xs : List A) → (xs ≡ []) ⊎ ¬ (xs ≡ [])
  List-cases [] = inl refl
  List-cases (x ∷ xs) = inr λ e. ground arith

  pub positive-length : (xs : List A) → ¬ (xs ≡ []) → 1 ≤ length xs
  positive-length [] q = ground (arith, q refl)
  positive-length (x ∷ xs) q = omega arith

  pub nil-length : (xs : List A) → length xs ≡ 0 → xs ≡ []
  nil-length [] e = refl
  nil-length (x ∷ xs) e = ground arith

pub writes-flushed :
    (window : Window) (property type_ : Atom) (c : Text) (t : Trace)
    → writes window property (Act.flush ∷ Act.change_property8 window property type_ c ∷ t)
      ≡ writes window property t ++ (c ∷ [])
writes-flushed window property type_ c t =
    rw (==_refl window, ==_refl property, append-nil (writes window property t ++ (c ∷ [])))
