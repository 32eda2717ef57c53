-- ===== src/X11/Overrun.antt =====
-- The reader of an INCR transfer that is longer than its limit.
use clipbus.Base.{
  ℕ, ◌≤◌, ◌<◌, ◌+◌, ◌-◌, ◌*◌, ◌≡◌, ◌++◌, ◌∷◌, [], List, none, some, length, length-append,
  length-take, lookup, insert, remove, lookup-removed, lookup-inserted, arith, ap, sym, subst, ◌∙◌,
  ◌⊎◌, inl, inr,
}
use clipbus.Text.{Text}
use clipbus.Status.{Status, ClipbusStatus}
use clipbus.Clipboard.{HostFn}
use clipbus.Clipboard.Notify.{notify_target_data}
use clipbus.Trace.{Act, Atom}
use clipbus.X11.State.{X11State, ExternalIncrData, external_incr_data}
use clipbus.X11.Server.{World}
use clipbus.X11.Connection.{property_units_for_bytes}
use clipbus.X11.External.{read_external_incr_chunk}
use clipbus.X11.Chunks.{concat}
use clipbus.X11.Supply.{Supplies, calls}
use clipbus.X11.Reading.{
  new_values, chunk_request, at, Served, Listens, served, read-more, read-more-at, reach,
}

module _ ⦃w : World⦄ where
  read-none :
      (id : ℕ) (s : X11State)
      → lookup id s.pending ≡ none
      → let s' = (read_external_incr_chunk id s).1 in
        (lookup id s'.pending ≡ none) × (s'.trace ≡ s.trace)
  unfolding read_external_incr_chunk
  read-none id s e = ground (arith, lookup-removed id s.pending)

  new_values-none :
      (cs : List Text) (id : ℕ) (s : X11State)
      → lookup id s.pending ≡ none
      → (lookup id (new_values cs id s).pending ≡ none) × ((new_values cs id s).trace ≡ s.trace)
  new_values-none [] id s e = read-none id s e
  new_values-none (c ∷ cs) id s e =
      let (gone, same) = read-none id s e in
      let (gone', same') = new_values-none cs id (read_external_incr_chunk id s).1 gone in
      (gone', same' ∙ same)

  order_cases : (a b : ℕ) → (a ≤ b) ⊎ (b < a)
  order_cases a b = omega arith

-- From the state s to the end, the host was called once, without data.
abbrev Refused : ℕ → X11State → HostFn → Text → (X11State → X11State) → X11State → Type 0
Refused id s f name go x =
    (lookup id (go x).pending ≡ none)
    × (calls (go x).trace
        ≡ Act.call_target_data f s.callbacks.user id name ClipbusStatus.unsupported []
          ∷ calls s.trace)

module _ ⦃w : World⦄ (type_ : Atom) (chunk : ℕ → Text) where
  read-over :
      (id : ℕ) (s : X11State) (r : ExternalIncrData) (f : HostFn) (name : Text)
      → Served type_ chunk s r
      → lookup id s.pending ≡ some (external_incr_data r)
      → length r.payload ≤ r.max_bytes
      → r.max_bytes < length r.payload + length (chunk (at type_ chunk s r))
      → Listens s r f name
      → Refused id s f name (λ x. (read_external_incr_chunk id x).1) s
  unfolding read_external_incr_chunk notify_target_data clipbus.Status.to_abi
  read-over id s r f name served_at e k h (on, named) =
      let n = 4 * property_units_for_bytes (r.max_bytes - length r.payload) in
      ground (
        arith,
        served type_ chunk s r served_at,
        length-take n (chunk (at type_ chunk s r)),
        lookup-removed id s.pending,
      )

  -- The server holds the owner's non-empty chunks in the property of a read that pends, then an empty
  -- one, and answers GetProperty by the protocol; the host listens for data under a name without a
  -- NUL; the limit is at most 16 GiB less four bytes; what was gathered before is within it, but with
  -- the chunks over it. After as many new values of the property as there are
  -- chunks, and one more, the host was called exactly once, with status Unsupported and no data,
  -- under the id of its request; and the request is no longer pending.
  pub new_values-over :
      (cs : List Text) (id : ℕ) (s : X11State) (r : ExternalIncrData) (f : HostFn) (name : Text)
      → Served type_ chunk s r
      → Supplies chunk (at type_ chunk s r) cs
      → lookup id s.pending ≡ some (external_incr_data r)
      → length r.payload ≤ r.max_bytes
      → r.max_bytes < length r.payload + length (concat cs)
      → r.max_bytes ≤ reach
      → Listens s r f name
      → let s' = new_values cs id s in
        (lookup id s'.pending ≡ none)
        × (calls s'.trace
            ≡ Act.call_target_data f s.callbacks.user id name ClipbusStatus.unsupported []
              ∷ calls s.trace)
  new_values-over [] id s r f name served_at supplied e k h max on =
      let bad : ⊥ = omega (arith, h, k) in elim bad [ ]
  new_values-over (c ∷ cs) id s r f name served_at (here, some_bytes, later) e k h max on =
      let size = ap length here in
      let total = length-append c (concat cs) in
      let grown = length-append r.payload (chunk (at type_ chunk s r)) in
      elim (order_cases (length r.payload + length (chunk (at type_ chunk s r))) r.max_bytes) [
        | inl fits ↦
            let r1 : ExternalIncrData = record r {
              payload = r.payload ++ chunk (at type_ chunk s r);
            } in
            let s1 : X11State = record s {
              trace = Act.flush ∷ Act.get_property (chunk_request s r) ∷ s.trace;
              pending = insert id (external_incr_data r1) (remove id s.pending);
            } in
            let step =
              read-more type_ chunk id s r served_at e (omega (arith, size, some_bytes)) fits max in
            let rest =
              new_values-over cs id s1 r1 f name served_at
                (subst (λ n. Supplies chunk n cs) (sym (read-more-at type_ chunk s r fits max))
                  later)
                (lookup-inserted id (external_incr_data r1) (remove id s.pending))
                (omega (arith, grown, fits)) (omega (arith, grown, size, h, total)) max on in
            subst (Refused id s f name (λ x. new_values cs id x)) (sym step) rest
        | inr over ↦
            let (gone, told) = read-over id s r f name served_at e k over on in
            let (gone', quiet) = new_values-none cs id (read_external_incr_chunk id s).1 gone in
            (gone', ap calls quiet ∙ told)
      ]
