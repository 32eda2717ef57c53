-- ===== src/X11/Identities.antt =====
-- Request ids: fresh when they are given out, and each with its own property on the window; and what
-- becomes of a command that names an id of another kind of request.
use clipbus.Base.{
  ℕ, ◌<◌, ◌≡◌, ◌∷◌, [], String, none, some, ok, lookup, Entries-lookup, Option-cases, u64_max,
  arith, refl, ap, ◌∙◌, inl, inr, remove, lookup-removed,
}
use clipbus.Text.{Text}
use clipbus.Status.{Status}
use clipbus.Trace.{Act, Trace}
use clipbus.X11.State.{X11State, OwnerIncrData, owner_incr_data}
use clipbus.X11.Server.{World}
use clipbus.X11.Connection.{allocate_request_id}
use clipbus.X11.Owner.{complete_request}
use clipbus.X11.Transfer.{deletions, finished-deletions}
use clipbus.X11.Sound.Connection.{IsSound-next}
use clipbus.X11.Sound.{IsSound, Good}

-- The two requests to another owner, each with a prefix for its property's name.
pub data Wanted : Type 0 where
  wanted_targets wanted_data : Wanted

abbrev pub prefix : Wanted → String
prefix wanted_targets = "CLIPBUS_TARGETS"
prefix wanted_data = "CLIPBUS_DATA"

module _ ⦃w : World⦄ where
  fresh-lookup :
      (s : X11State)
      → IsSound s
      → s.next_request_id < u64_max
      → lookup s.next_request_id s.pending ≡ none
  fresh-lookup s h k = elim (Option-cases (lookup s.next_request_id s.pending)) [
    | inl e ↦ e
    | inr (v, e) ↦
        let g : Good s.next_request_id s.next_request_id v =
          Entries-lookup (Good s.next_request_id) s.next_request_id v s.pending h.entries e in
        ground (arith, g.0)
  ]

  -- In a sound state whose counter is below u64::MAX, the id that is given out is not that of any
  -- pending request, and giving it out changes no request and leaves the state sound.
  pub allocate_request_id-fresh :
      (s : X11State)
      → IsSound s
      → s.next_request_id < u64_max
      → let (r, s') = allocate_request_id {E = Text} s in
        (id : ℕ) × (r ≡ ok id)
        × (lookup id s'.pending ≡ none)
        × (id < s'.next_request_id)
        × IsSound s'
  unfolding allocate_request_id
  allocate_request_id-fresh s h k =
      (s.next_request_id, refl, fresh-lookup s h k, omega arith, IsSound-next s h)

  abbrev name_in : Trace → Text
  name_in (Act.intern_atom name ∷ t) = name
  name_in _ = []

  -- A completion of a transfer that has begun, a second one say, ends it without a word: the request is
  -- no longer pending, and neither the call nor any later deletion of the property writes to it, so
  -- the requestor never sees the empty chunk that ends an INCR transfer.
  pub complete_request-lost :
      (n request_id : ℕ) (status : Status) (payload : Text) (s : X11State) (r : OwnerIncrData)
      → lookup request_id s.pending ≡ some (owner_incr_data r)
      → let s' = deletions n request_id (complete_request request_id status payload s).1 in
        (lookup request_id s'.pending ≡ none) × (s'.trace ≡ s.trace)
  unfolding complete_request
  complete_request-lost n request_id status payload s r e =
      let q : (complete_request request_id status payload s).1
          ≡ (record s { pending = remove request_id s.pending }) =
        ground arith in
      let (same, gone) =
        finished-deletions n request_id (complete_request request_id status payload s).1
          (ap (λ x. lookup request_id x.pending) q ∙ lookup-removed request_id s.pending) in
      (gone, same ∙ ap (λ x. x.trace) q)
