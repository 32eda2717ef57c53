-- ===== src/X11/Publishing.antt =====
-- What is published after publish_targets.
use clipbus.Base.{
  ℕ, ok, ◌≡◌, ◌∷◌, [], List, Option, none, some, lookup, lookup-insert, if◌then◌else◌, ◌==◌, arith,
  ◌≢◌, ◌⊎◌, subst, sym, refl,
}
use clipbus.Text.{Text}
use clipbus.Clipboard.{TargetOffer}
use clipbus.Trace.{Act, Trace, Atom}
use clipbus.X11.State.{X11State, PublishedTarget}
use clipbus.X11.Server.{World, answer}
use clipbus.X11.Connection.{current_time}
use clipbus.X11.Owner.{published_target, publish_one, publish_each, publish_targets}
use clipbus.X11.Accepts.{Accepts}

-- The last of the offers whose name is this atom.
abbrev pub last_offer : (Text → Atom) → Atom → List TargetOffer → Option TargetOffer
last_offer atom a [] = none
last_offer atom a (o ∷ os) = elim (last_offer atom a os) [
  | some later ↦ some later
  | none ↦ if atom o.native_target == a then some o else none
]

-- The fields of what an offer is published as, under an atom; `limit` is the backend's.
abbrev pub IsOffered : ℕ → Atom → TargetOffer → PublishedTarget → Type 0
IsOffered limit a o p =
    (p.atom ≡ a)
    × (p.name ≡ o.native_target)
    × (((o.max_bytes ≡ 0) × (p.max_bytes ≡ limit))
        ⊎ ((o.max_bytes ≢ 0) × (p.max_bytes ≡ o.max_bytes)))

abbrev pub Offered : ℕ → Atom → Option TargetOffer → Option PublishedTarget → Type 0
Offered limit a none found = found ≡ none
Offered limit a (some o) found = (p : PublishedTarget) × (found ≡ some p) × IsOffered limit a o p

module _ ⦃w : World⦄ where
  -- what that offer is published as, or what was published before
  abbrev pub as_published :
      ℕ → Atom → Option TargetOffer → Option PublishedTarget → Option PublishedTarget
  as_published limit a none before = before
  as_published limit a (some o) before = some (published_target limit a o)

  -- each name has its atom
  abbrev pub Names : (Text → Atom) → Type 0
  Names atom = (t : Trace) (name : Text) → w.atom_of t name ≡ answer (atom name)

  module _ (accepts : Accepts w) (atom : Text → Atom) (names : Names atom) where
    publish_one-lookup :
        (a : Atom) (o : TargetOffer) (s : X11State)
        → let (r, s') = publish_one o s in
          (r ≡ ok tt)
          × (s'.options ≡ s.options)
          × (s'.window ≡ s.window)
          × (s'.atoms ≡ s.atoms)
          × (lookup a s'.published ≡ (
              if atom o.native_target == a
              then some (published_target s.options.max_inline_bytes a o)
              else lookup a s.published))
    unfolding publish_one
    publish_one-lookup a o s =
        let n = atom o.native_target in
        ground (
          arith,
          names s.trace o.native_target,
          lookup-insert n a (published_target s.options.max_inline_bytes n o) s.published,
        )

    publish_each-lookup :
        (a : Atom) (os : List TargetOffer) (s : X11State)
        → let (r, s') = publish_each os s in
          (r ≡ ok tt)
          × (s'.window ≡ s.window)
          × (s'.atoms ≡ s.atoms)
          × (lookup a s'.published
              ≡ as_published s.options.max_inline_bytes a
                  (last_offer atom a os)
                  (lookup a s.published))
    unfolding publish_each
    publish_each-lookup a [] s = (refl, refl, refl, refl)
    publish_each-lookup a (o ∷ os) s =
        let s1 = (publish_one o s).1 in
        let (fine, same, window, atoms, here) = publish_one-lookup a o s in
        let (done, window1, atoms1, later) = publish_each-lookup a os s1 in
        ground (arith, fine, same, window, atoms, here, done, window1, atoms1, later)

    published_target-IsOffered :
        (limit : ℕ) (a : Atom) (o : TargetOffer) → IsOffered limit a o (published_target limit a o)
    unfolding published_target
    published_target-IsOffered limit a o = ground arith

    as_published-Offered :
        (limit : ℕ) (a : Atom) (o : Option TargetOffer)
        → Offered limit a o (as_published limit a o none)
    as_published-Offered limit a none = refl
    as_published-Offered limit a (some o) =
        (published_target limit a o, refl, published_target-IsOffered limit a o)

    -- On a connection that accepts each request and knows each name by one atom, after
    -- publish_targets: an atom is published exactly if it is the atom of an offer; it is published
    -- with the name of the last such offer, and with that offer's limit, or the backend's inline
    -- limit if the offer has none; and the selection is claimed for the backend's window, as the
    -- last act.
    pub publish_targets-Offered :
        (a : Atom) (os : List TargetOffer) (s : X11State)
        → let s' = (publish_targets os s).1 in
          Offered s.options.max_inline_bytes a (last_offer atom a os) (lookup a s'.published)
          × ((t : Trace) × (s'.trace
                ≡ Act.flush ∷ Act.set_selection_owner s.window s.atoms.clipboard current_time ∷ t))
    unfolding publish_targets lookup
    publish_targets-Offered a os s =
        let s0 : X11State = record s { published = [] } in
        let s1 = (publish_each os s0).1 in
        let (done, window, atoms, found) = publish_each-lookup a os s0 in
        let claim : Act = Act.set_selection_owner s1.window s1.atoms.clipboard current_time in
        let b = accepts s1.trace claim in
        let c = accepts (claim ∷ s1.trace) Act.flush in
        let end : lookup a (publish_targets os s).1.published
            ≡ as_published s.options.max_inline_bytes a (last_offer atom a os) none =
          ground (arith, done, found, b, c) in
        (
          subst (Offered s.options.max_inline_bytes a (last_offer atom a os)) (sym end)
              (as_published-Offered s.options.max_inline_bytes a (last_offer atom a os)),
          (s1.trace, ground (arith, done, window, atoms, b, c)),
        )
