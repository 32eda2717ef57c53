-- ===== src/X11/Reading.antt =====
-- The reader of an INCR transfer, over the whole of what the owner writes.
use clipbus.Base.{
  ℕ, suc, ◌≤◌, ◌+◌, ◌-◌, ◌*◌, ◌≡◌, ◌++◌, ◌∷◌, [], List, none, some, length, length-append, true,
  lookup, remove, insert, lookup-removed, lookup-inserted, length-take, arith, refl, sym, ap, subst,
  ◌∙◌,
}
use mathlib.Core.List.{append-nil, append_assoc}
use clipbus.Text.{Text, c_string}
use clipbus.Status.{ClipbusStatus}
use clipbus.Clipboard.{HostFn}
use clipbus.Clipboard.Notify.{notify_target_data}
use clipbus.Trace.{Act, Trace, PropertyRequest, Atom}
use clipbus.X11.State.{X11State, ExternalIncrData, external_incr_data}
use clipbus.X11.Server.{World, answer}
use clipbus.X11.Connection.{any_atom, property_units_for_bytes}
use clipbus.X11.External.{read_external_incr_chunk}
use clipbus.X11.Chunks.{concat}
use clipbus.X11.Supply.{Serves, Supplies, consumed, reply_to, calls, take-all}

-- The longest value that one GetProperty returns: 2^32 - 1 units of four bytes.
abbrev pub reach : ℕ
reach = 17179869180

module _ ⦃w : World⦄ where
  -- as many new values of the property as there are chunks, and one more
  abbrev pub new_values : List Text → ℕ → X11State → X11State
  new_values [] request_id s = (read_external_incr_chunk request_id s).1
  new_values (c ∷ cs) request_id s =
      new_values cs request_id (read_external_incr_chunk request_id s).1

  abbrev pub chunk_request : X11State → ExternalIncrData → PropertyRequest
  chunk_request s r = record {
    delete = true;
    window = s.window;
    property = r.property;
    type_ = any_atom;
    long_offset = 0;
    long_length = property_units_for_bytes (r.max_bytes - length r.payload);
  }

  -- the host's function for data, and the name that it is called with
  abbrev pub Listens : X11State → ExternalIncrData → HostFn → Text → Type 0
  Listens s r f name = (s.callbacks.target_data ≡ some f) × (c_string r.native_target ≡ some name)

-- From the state s to the end, the host was called once, with this payload, as the last act.
abbrev Handed : ℕ → X11State → HostFn → Text → (X11State → X11State) → Text → X11State → Type 0
Handed id s f name go payload x =
    let s' = go x in
    let call = Act.call_target_data f s.callbacks.user id name ClipbusStatus.ok payload in
    (lookup id s'.pending ≡ none)
    × (calls s'.trace ≡ call ∷ calls s.trace)
    × ((t : Trace) × (s'.trace ≡ call ∷ t))

module _ ⦃w : World⦄ (type_ : Atom) (chunk : ℕ → Text) where
  -- the number of the value that the property of a read holds
  abbrev pub at : X11State → ExternalIncrData → ℕ
  at s r = consumed s.window r.property chunk s.trace

  abbrev pub Served : X11State → ExternalIncrData → Type 0
  Served s r = Serves w s.window r.property type_ chunk

  pub served :
      (s : X11State) (r : ExternalIncrData)
      → Served s r
      → w.property s.trace (chunk_request s r)
        ≡ answer (reply_to type_ (chunk_request s r) (chunk (at s r)))
  served s r h = h s.trace (chunk_request s r) refl refl refl

  pub read-more :
      (id : ℕ) (s : X11State) (r : ExternalIncrData)
      → Served s r
      → lookup id s.pending ≡ some (external_incr_data r)
      → 1 ≤ length (chunk (at s r))
      → length r.payload + length (chunk (at s r)) ≤ r.max_bytes
      → r.max_bytes ≤ reach
      → (read_external_incr_chunk id s).1 ≡ (record s {
        trace = Act.flush ∷ Act.get_property (chunk_request s r) ∷ s.trace;
        pending =
            insert id
              (external_incr_data (record r { payload = r.payload ++ chunk (at s r) }))
              (remove id s.pending);
      })
  unfolding read_external_incr_chunk property_units_for_bytes
  read-more id s r served_at e h k m =
      let n = 4 * property_units_for_bytes (r.max_bytes - length r.payload) in
      let c = chunk (at s r) in
      ground (arith, served s r served_at, take-all n c (omega (arith, k, m)))

  pub read-more-at :
      (s : X11State) (r : ExternalIncrData)
      → length r.payload + length (chunk (at s r)) ≤ r.max_bytes
      → r.max_bytes ≤ reach
      → consumed s.window r.property chunk
          (Act.flush ∷ Act.get_property (chunk_request s r) ∷ s.trace)
        ≡ suc (at s r)
  unfolding property_units_for_bytes
  read-more-at s r k m = ground arith

  read-last :
      (id : ℕ) (s : X11State) (r : ExternalIncrData) (f : HostFn) (name : Text)
      → Served s r
      → lookup id s.pending ≡ some (external_incr_data r)
      → chunk (at s r) ≡ []
      → Listens s r f name
      → (read_external_incr_chunk id s).1 ≡ (record s {
        trace =
            Act.call_target_data f s.callbacks.user id name ClipbusStatus.ok r.payload
            ∷ Act.flush
            ∷ Act.get_property (chunk_request s r)
            ∷ s.trace;
        pending = remove id s.pending;
      })
  unfolding read_external_incr_chunk notify_target_data clipbus.Status.to_abi
  read-last id s r f name served_at e h (k, l) =
      let n = 4 * property_units_for_bytes (r.max_bytes - length r.payload) in
      ground (arith, served s r served_at, length-take n (chunk (at s r)))

  -- The server holds the owner's non-empty chunks in the property of a read that pends, then an empty
  -- one, and answers GetProperty by the protocol; the host listens for data under a name without a
  -- NUL; and with what was gathered before the chunks are within the limit, which is at most 16 GiB
  -- less four bytes. After as many new values of the property as there are
  -- chunks, and one empty one, the host was called exactly once, with status Ok and the
  -- concatenation of all that was gathered, under the id of its request, as the last act; and the
  -- request is no longer pending.
  pub new_values-read :
      (cs : List Text) (id : ℕ) (s : X11State) (r : ExternalIncrData) (f : HostFn) (name : Text)
      → Served s r
      → Supplies chunk (at s r) cs
      → lookup id s.pending ≡ some (external_incr_data r)
      → length r.payload + length (concat cs) ≤ r.max_bytes
      → r.max_bytes ≤ reach
      → Listens s r f name
      → let s' = new_values cs id s in
        let call =
          Act.call_target_data f s.callbacks.user id name ClipbusStatus.ok
            (r.payload ++ concat cs) in
        (lookup id s'.pending ≡ none)
        × (calls s'.trace ≡ call ∷ calls s.trace)
        × ((t : Trace) × (s'.trace ≡ call ∷ t))
  new_values-read [] id s r f name served_at supplied e m max on =
      let end = read-last id s r f name served_at e supplied on in
      let whole = sym (append-nil r.payload) in
      let call : Text → Act =
        λ p. Act.call_target_data f s.callbacks.user id name ClipbusStatus.ok p in
      let t : Trace = Act.flush ∷ Act.get_property (chunk_request s r) ∷ s.trace in
      (
        ap (λ x. lookup id x.pending) end ∙ lookup-removed id s.pending,
        ap (λ x. calls x.trace) end ∙ ap (λ p. call p ∷ calls s.trace) whole,
        (t, ap (λ x. x.trace) end ∙ ap (λ p. call p ∷ t) whole),
      )
  new_values-read (c ∷ cs) id s r f name served_at (here, some_bytes, later) e m max on =
      let size = ap length here in
      let total = length-append c (concat cs) in
      let fits : length r.payload + length (chunk (at s r)) ≤ r.max_bytes =
        omega (arith, size, m, total) in
      let r1 : ExternalIncrData = record r { payload = r.payload ++ chunk (at s r) } in
      let s1 : X11State = record s {
        trace = Act.flush ∷ Act.get_property (chunk_request s r) ∷ s.trace;
        pending = insert id (external_incr_data r1) (remove id s.pending);
      } in
      let step = read-more id s r served_at e (omega (arith, size, some_bytes)) fits max in
      let rest =
        new_values-read cs id s1 r1 f name served_at
          (subst (λ n. Supplies chunk n cs) (sym (read-more-at s r fits max)) later)
          (lookup-inserted id (external_incr_data r1) (remove id s.pending))
          (omega (arith, size, m, total, length-append r.payload (chunk (at s r)))) max on in
      let joined : r1.payload ++ concat cs ≡ r.payload ++ concat (c ∷ cs) =
        append_assoc r.payload (chunk (at s r)) (concat cs)
        ∙ ap (λ c. r.payload ++ (c ++ concat cs)) here in
      subst (Handed id s f name (λ x. new_values cs id x) (r.payload ++ concat (c ∷ cs))) (sym step)
        (subst (λ p. Handed id s f name (λ x. new_values cs id x) p s1) joined rest)
