-- ===== src/X11/Transfer.antt =====
-- The owner's INCR transfer from its first chunk to its end, on a connection that accepts each
-- request.
use clipbus.Base.{
  ℕ, zero, suc, ◌≤◌, ◌<◌, ◌+◌, ◌-◌, ◌≡◌, ◌++◌, ◌∷◌, [], List, none, some, min, length, drop,
  length-take, length-drop, lookup, remove, insert, lookup-remove, lookup-removed, lookup-inserted,
  u64_max, arith, refl, sym, ap, subst, inl, inr, ◌∙◌,
}
use mathlib.Core.List.{append_assoc}
use clipbus.Text.{Text}
use clipbus.Trace.{Act}
use clipbus.X11.State.{X11State, OwnerIncrData, owner_incr_data}
use clipbus.X11.Server.{World}
use clipbus.X11.Incr.{send_next_owner_incr_chunk, next_chunk, chunk_end}
use clipbus.X11.Accepts.{Accepts}
use clipbus.X11.Chunks.{
  writes, Chunks, concat, slice-append-drop, List-cases, nil-length, positive-length,
  writes-flushed,
}

module _ ⦃w : World⦄ where
  -- the requestor has deleted the property n times
  abbrev pub deletions : ℕ → ℕ → X11State → X11State
  deletions zero request_id s = s
  deletions (suc n) request_id s =
      deletions n request_id (send_next_owner_incr_chunk request_id s).1

  module _ (accepts : Accepts w) where
    chunk-step :
        (request_id : ℕ) (s : X11State) (r : OwnerIncrData)
        → lookup request_id s.pending ≡ some (owner_incr_data r)
        → ¬ (next_chunk r ≡ [])
        → (send_next_owner_incr_chunk request_id s).1 ≡ (record s {
          trace =
              Act.flush
              ∷ Act.change_property8 r.requestor r.property r.target_atom (next_chunk r)
              ∷ s.trace;
          pending =
              insert request_id
                (owner_incr_data (record r { offset = chunk_end r }))
                (remove request_id s.pending);
        })
    unfolding send_next_owner_incr_chunk
    chunk-step request_id s r e h = ground (
      arith,
      accepts s.trace (Act.change_property8 r.requestor r.property r.target_atom (next_chunk r)),
      accepts (Act.change_property8 r.requestor r.property r.target_atom (next_chunk r) ∷ s.trace)
          Act.flush,
    )

    last-step :
        (request_id : ℕ) (s : X11State) (r : OwnerIncrData)
        → lookup request_id s.pending ≡ some (owner_incr_data r)
        → next_chunk r ≡ []
        → (send_next_owner_incr_chunk request_id s).1 ≡ (record s {
          trace =
              Act.flush ∷ Act.change_property8 r.requestor r.property r.target_atom [] ∷ s.trace;
          pending = remove request_id s.pending;
        })
    unfolding send_next_owner_incr_chunk
    last-step request_id s r e h = ground (
      arith,
      accepts s.trace (Act.change_property8 r.requestor r.property r.target_atom (next_chunk r)),
      accepts (Act.change_property8 r.requestor r.property r.target_atom (next_chunk r) ∷ s.trace)
          Act.flush,
    )

  next_chunk-length :
      (r : OwnerIncrData)
      → r.offset ≤ length r.payload
      → length r.payload ≤ u64_max
      → length (next_chunk r) ≡ min r.chunk_size (length r.payload - r.offset)
  next_chunk-length r h k = omega (
    arith,
    length-take (chunk_end r - r.offset) (drop r.offset r.payload),
    length-drop r.offset r.payload,
  )

  next_chunk-rest :
      (r : OwnerIncrData)
      → r.offset ≤ chunk_end r
      → next_chunk r ++ drop (chunk_end r) r.payload ≡ drop r.offset r.payload
  next_chunk-rest r h =
      let e : r.offset + (chunk_end r - r.offset) ≡ chunk_end r = omega arith in
      subst (λ n. next_chunk r ++ drop n r.payload ≡ drop r.offset r.payload) e
        (slice-append-drop r.offset (chunk_end r - r.offset) r.payload)

  -- the transfer is over: what is left of it
  pub finished-deletions :
      (n request_id : ℕ) (s : X11State)
      → lookup request_id s.pending ≡ none
      → ((deletions n request_id s).trace ≡ s.trace)
        × (lookup request_id (deletions n request_id s).pending ≡ none)
  unfolding send_next_owner_incr_chunk
  finished-deletions zero request_id s e = (refl, e)
  finished-deletions (suc n) request_id s e = ground (
    arith,
    finished-deletions n request_id (send_next_owner_incr_chunk request_id s).1,
    lookup-remove request_id request_id s.pending,
  )

  -- After n deletions, the chunks that were written since, and an empty one after them, hold what
  -- the transfer had left; and the request is gone.
  abbrev pub Delivered : ℕ → ℕ → X11State → OwnerIncrData → Type 0
  Delivered n request_id s r =
      let s' : X11State = deletions n request_id s in
      (cs : List Text) × (writes r.requestor r.property s'.trace
        ≡ writes r.requestor r.property s.trace ++ (cs ++ ([] ∷ [])))
      × Chunks r.chunk_size cs
      × (concat cs ≡ drop r.offset r.payload)
      × (lookup request_id s'.pending ≡ none)

  module _ (accepts : Accepts w) where
    deliver-last :
        (n request_id : ℕ) (s : X11State) (r : OwnerIncrData)
        → lookup request_id s.pending ≡ some (owner_incr_data r)
        → next_chunk r ≡ []
        → drop r.offset r.payload ≡ []
        → Delivered (suc n) request_id s r
    deliver-last n request_id s r e h d =
        let s1 = (send_next_owner_incr_chunk request_id s).1 in
        let step = last-step accepts request_id s r e h in
        let over =
          finished-deletions n request_id s1
            (ap (λ x. lookup request_id x.pending) step ∙ lookup-removed request_id s.pending) in
        (
          [],
          ap (writes r.requestor r.property) (over.0 ∙ ap (λ x. x.trace) step)
              ∙ writes-flushed r.requestor r.property r.target_atom [] s.trace,
          tt,
          sym d,
          over.1,
        )

    -- On a connection that accepts each request, from any point of a transfer and after more
    -- deletions of the property than there are bytes left: what was written to it since are chunks
    -- of at least one byte and at most the chunk size, whose concatenation is what was left of the
    -- payload, and then one empty chunk; and the request is no longer pending. The offset is inside
    -- the payload, whose length is a usize, and the chunk size is not 0.
    pub deletions-Delivered :
        (n request_id : ℕ) (s : X11State) (r : OwnerIncrData)
        → lookup request_id s.pending ≡ some (owner_incr_data r)
        → r.offset ≤ length r.payload
        → length r.payload ≤ u64_max
        → 1 ≤ r.chunk_size
        → length r.payload - r.offset < n
        → Delivered n request_id s r
    deletions-Delivered zero request_id s r e h k c m = elim m [ ]
    deletions-Delivered (suc n) request_id s r e h k c m = elim (List-cases (next_chunk r)) [
      | inl q ↦ deliver-last n request_id s r e q (
          nil-length _
            (omega (arith, ap length q, next_chunk-length r h k, length-drop r.offset r.payload)))
      | inr q ↦
          let r1 : OwnerIncrData = record r { offset = chunk_end r } in
          let pos : 1 ≤ length (next_chunk r) = positive-length _ q in
          let step = chunk-step accepts request_id s r e q in
          let s1 = (send_next_owner_incr_chunk request_id s).1 in
          let (cs, ws, ok, whole, gone) =
            deletions-Delivered n request_id s1 r1
              (ap (λ x. lookup request_id x.pending) step
                ∙ lookup-inserted request_id (owner_incr_data r1) (remove request_id s.pending))
              (omega arith) k c (omega (arith, pos, next_chunk-length r h k)) in
          (
            next_chunk r ∷ cs,
            ws
                ∙ (ap (λ t. writes r.requestor r.property t.trace ++ (cs ++ ([] ∷ []))) step
                    ∙ (ap (λ t. t ++ (cs ++ ([] ∷ [])))
                          (writes-flushed r.requestor r.property r.target_atom (next_chunk r)
                            s.trace)
                        ∙ append_assoc (writes r.requestor r.property s.trace) (next_chunk r ∷ [])
                            (cs ++ ([] ∷ [])))),
            (pos, omega (arith, next_chunk-length r h k), ok),
            ap (λ x. next_chunk r ++ x) whole ∙ next_chunk-rest r (omega arith),
            gone,
          )
    ]
