-- ===== src/X11/Answers.antt =====
-- What a requestor hears: each SelectionRequest is answered at once or pends, and each completed
-- request is answered.
use clipbus.Base.{
  ℕ, ◌≤◌, ◌<◌, ◌≡◌, ◌⊎◌, inl, inr, ◌∷◌, some, false, lookup, remove, lookup-inserted, length, arith,
  refl, ap, subst, sym, ◌∙◌,
}
use clipbus.Text.{Text}
use clipbus.Status.{Status, is_ok}
use clipbus.Trace.{Act}
use clipbus.X11.State.{X11State, OwnerData, OwnerIncrData, owner_data, owner_incr_data}
use clipbus.X11.Server.{World}
use clipbus.X11.Connection.{none_atom, response_property, inline_data_limit, fail_selection_request}
use clipbus.X11.Owner.{complete_request, complete_owner_data, write_inline}
use clipbus.X11.Accepts.{Accepts, Announced, Notified, notification, send_selection_notify-Notified}
use clipbus.X11.Completion.{complete-begins, started}

module _ ⦃w : World⦄ where
  -- the three ends of a pending request of the requestor's, from the state s to the state s'
  abbrev pub Refused : ℕ → OwnerData → X11State → X11State → Type 0
  Refused request_id r s s' =
      Notified r.event none_atom s.trace s'.trace × (s'.pending ≡ remove request_id s.pending)

  abbrev pub Inline : ℕ → Text → OwnerData → X11State → X11State → Type 0
  Inline request_id payload r s s' =
      let property = response_property r.event in
      let write = Act.change_property8 r.event.requestor property r.event.target payload in
      Notified r.event property (write ∷ s.trace) s'.trace
      × (s'.pending ≡ remove request_id s.pending)

  abbrev pub Begun : ℕ → Text → OwnerData → X11State → X11State → Type 0
  Begun request_id payload r s s' =
      Announced r.event s.atoms.incr (length payload) s.trace s'.trace
      × ((begun : OwnerIncrData) × (lookup request_id s'.pending ≡ some (owner_incr_data begun))
          × (begun.payload ≡ payload)
          × (begun.offset ≡ 0)
          × (begun.requestor ≡ r.event.requestor)
          × (begun.property ≡ response_property r.event))

  module _ (accepts : Accepts w) where
    complete-refuses :
        (request_id : ℕ) (status : Status) (payload : Text) (s : X11State) (r : OwnerData)
        → lookup request_id s.pending ≡ some (owner_data r)
        → (is_ok status ≡ false) ⊎ (r.target.max_bytes < length payload)
        → (complete_request request_id status payload s).1 ≡ (record s {
          trace = Act.flush ∷ notification r.event none_atom ∷ s.trace;
          pending = remove request_id s.pending;
        })
    unfolding complete_request complete_owner_data fail_selection_request
    complete-refuses request_id status payload s r e h = ground (
      arith,
      send_selection_notify-Notified accepts r.event none_atom
          (record s { pending = remove request_id s.pending }),
    )

    complete-inline :
        (request_id : ℕ) (payload : Text) (s : X11State) (r : OwnerData)
        → lookup request_id s.pending ≡ some (owner_data r)
        → length payload ≤ r.target.max_bytes
        → length payload ≤ inline_data_limit s.options.max_inline_bytes
        → let property = response_property r.event in
          (complete_request request_id Status.ok payload s).1 ≡ (record s {
            trace =
                Act.flush
                ∷ notification r.event property
                ∷ Act.change_property8 r.event.requestor property r.event.target payload
                ∷ s.trace;
            pending = remove request_id s.pending;
          })
    unfolding complete_request complete_owner_data write_inline
    complete-inline request_id payload s r e h k =
        let property = response_property r.event in
        let write = Act.change_property8 r.event.requestor property r.event.target payload in
        ground (
          arith,
          accepts s.trace write,
          send_selection_notify-Notified accepts r.event property
              (record s { trace = write ∷ s.trace; pending = remove request_id s.pending }),
        )

    complete-Refused :
        (request_id : ℕ) (status : Status) (payload : Text) (s : X11State) (r : OwnerData)
        → lookup request_id s.pending ≡ some (owner_data r)
        → (is_ok status ≡ false) ⊎ (r.target.max_bytes < length payload)
        → Refused request_id r s (complete_request request_id status payload s).1
    complete-Refused request_id status payload s r e h =
        let q = complete-refuses request_id status payload s r e h in
        (ap (λ x. x.trace) q, ap (λ x. x.pending) q)

    is_ok_lem : (status : Status) → (is_ok status ≡ false) ⊎ (status ≡ Status.ok)
    is_ok_lem status = ground arith

    order_cases : (a b : ℕ) → (b < a) ⊎ (a ≤ b)
    order_cases a b = omega arith

    complete_ok-answers :
        (request_id : ℕ) (payload : Text) (s : X11State) (r : OwnerData)
        → lookup request_id s.pending ≡ some (owner_data r)
        → length payload ≤ r.target.max_bytes
        → let s' = (complete_request request_id Status.ok payload s).1 in
          let limit = inline_data_limit s.options.max_inline_bytes in
          ((length payload ≤ limit) × Inline request_id payload r s s')
          ⊎ ((limit < length payload) × Begun request_id payload r s s')
    complete_ok-answers request_id payload s r e h =
        elim (order_cases (length payload) (inline_data_limit s.options.max_inline_bytes)) [
          | inr k ↦
              let q = complete-inline request_id payload s r e h k in
              inl (k, (ap (λ x. x.trace) q, ap (λ x. x.pending) q))
          | inl k ↦
              let q = complete-begins accepts request_id payload s r e h k in
              inr (
                k,
                (
                  ap (λ x. x.trace) q,
                  (
                    started _ r payload,
                    ap (λ x. lookup request_id x.pending) q ∙ lookup-inserted request_id _ _,
                    refl,
                    refl,
                    refl,
                    refl,
                  ),
                ),
              )
        ]

    -- On a connection that accepts each request, the host's answer to a pending request of a
    -- requestor's has one of three ends. If the status is not Ok, or the data is over the target's
    -- limit: a SelectionNotify without a property. If it fits: the data in one property and a
    -- SelectionNotify that names it. Else the header of an INCR transfer with the size of the data, a
    -- SelectionNotify that names the property, and the transfer of all of the data pending from its
    -- first byte. In the first two the request is taken off; in each nothing else is sent.
    pub complete_request-answers :
        (request_id : ℕ) (status : Status) (payload : Text) (s : X11State) (r : OwnerData)
        → lookup request_id s.pending ≡ some (owner_data r)
        → let s' = (complete_request request_id status payload s).1 in
          let limit = inline_data_limit s.options.max_inline_bytes in
          (((is_ok status ≡ false) ⊎ (r.target.max_bytes < length payload))
            × Refused request_id r s s')
          ⊎ ((status ≡ Status.ok)
              × (length payload ≤ r.target.max_bytes)
              × (((length payload ≤ limit) × Inline request_id payload r s s')
                  ⊎ ((limit < length payload) × Begun request_id payload r s s')))
    complete_request-answers request_id status payload s r e = elim (is_ok_lem status) [
      | inl bad ↦ inl (inl bad, complete-Refused request_id status payload s r e (inl bad))
      | inr good ↦ elim (order_cases (length payload) r.target.max_bytes) [
        | inl long ↦ inl (inr long, complete-Refused request_id status payload s r e (inr long))
        | inr h ↦ inr (
          good,
          h,
          subst
              (λ st.
                let s' = (complete_request request_id st payload s).1 in
                let limit = inline_data_limit s.options.max_inline_bytes in
                ((length payload ≤ limit) × Inline request_id payload r s s')
                ⊎ ((limit < length payload) × Begun request_id payload r s s'))
              (sym good) (complete_ok-answers request_id payload s r e h),
        )
      ]
    ]
