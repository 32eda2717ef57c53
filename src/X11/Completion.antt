-- ===== src/X11/Completion.antt =====
-- From the host's answer to the end of the INCR transfer that it begins.
use clipbus.Base.{
  ℕ, ◌≤◌, ◌<◌, ◌+◌, ◌≡◌, ◌++◌, ◌∷◌, [], List, none, some, min, length, lookup, remove, insert,
  lookup-inserted, u64_max, u32_max, arith, ap, ◌∙◌,
}
use mathlib.Core.List.{append-nil}
use clipbus.Text.{Text}
use clipbus.Trace.{Act, Trace}
use clipbus.Status.{Status}
use clipbus.X11.State.{
  X11State, OwnerIncrData, OwnerData, SelectionRequestEvent, owner_data, owner_incr_data,
}
use clipbus.X11.Connection.{incr_chunk_size, inline_data_limit, response_property}
use clipbus.X11.Owner.{complete_request, complete_owner_data}
use clipbus.X11.Server.{World}
use clipbus.X11.Incr.{begin_owner_incr_request}
use clipbus.X11.Chunks.{writes, Chunks, concat}
use clipbus.X11.Accepts.{Accepts, Announced, notification}
use clipbus.X11.Transfer.{deletions, deletions-Delivered}

module _ ⦃w : World⦄ where
  incr_chunk_size-pos : 1 ≤ incr_chunk_size
  unfolding incr_chunk_size
  incr_chunk_size-pos = omega arith

  -- the transfer that a completed request starts
  abbrev pub started : ℕ → OwnerData → Text → OwnerIncrData
  started deadline r payload = record {
    requestor = r.event.requestor;
    property = response_property r.event;
    target_atom = r.target.atom;
    payload = payload;
    offset = 0;
    chunk_size = incr_chunk_size;
    deadline = deadline;
  }

  abbrev header : X11State → SelectionRequestEvent → Text → Act
  header s event payload =
      Act.change_property32 event.requestor (response_property event) s.atoms.incr
        (min (length payload) u32_max ∷ [])

  abbrev subscribed : X11State → SelectionRequestEvent → Trace
  subscribed s event = Act.change_window_attributes event.requestor ∷ s.trace

  abbrev pub header_acts : X11State → SelectionRequestEvent → Text → Trace
  header_acts s event payload =
      Act.flush
      ∷ notification event (response_property event)
      ∷ header s event payload
      ∷ subscribed s event

  module _ (accepts : Accepts w) where
    pub complete-begins :
        (request_id : ℕ) (payload : Text) (s : X11State) (r : OwnerData)
        → lookup request_id s.pending ≡ some (owner_data r)
        → length payload ≤ r.target.max_bytes
        → inline_data_limit s.options.max_inline_bytes < length payload
        → let t : Trace = header_acts s r.event payload in
          (complete_request request_id Status.ok payload s).1 ≡ (record s {
            trace = Act.read_clock ∷ t;
            pending =
                insert request_id
                  (owner_incr_data (started (w.now t + s.options.request_timeout_ms) r payload))
                  (remove request_id s.pending);
          })
    unfolding complete_request complete_owner_data begin_owner_incr_request
    complete-begins request_id payload s r e h k =
        let event = r.event in
        ground (
          arith,
          accepts s.trace (Act.change_window_attributes event.requestor),
          accepts (subscribed s event) (header s event payload),
          accepts (header s event payload ∷ subscribed s event)
              (notification event (response_property event)),
          accepts
              (notification event (response_property event)
                ∷ header s event payload
                ∷ subscribed s event)
              Act.flush,
        )

    -- On a connection that accepts each request: a host's answer of Ok to a pending request of the
    -- requestor's, within the target's limit and longer than what goes into one property, is
    -- announced as an INCR transfer: a subscription to the requestor's property events, the header
    -- with the size, and a SelectionNotify that names the property are all that is sent. After more deletions of the property than the answer has
    -- bytes, what was written to it are chunks of at least one byte and at most the chunk size,
    -- whose concatenation is the answer, and then one empty chunk; and the request is no longer
    -- pending. The length of the answer is a usize.
    pub complete_request-Delivered :
        (n request_id : ℕ) (payload : Text) (s : X11State) (r : OwnerData)
        → lookup request_id s.pending ≡ some (owner_data r)
        → length payload ≤ r.target.max_bytes
        → inline_data_limit s.options.max_inline_bytes < length payload
        → length payload ≤ u64_max
        → length payload < n
        → let s1 : X11State = (complete_request request_id Status.ok payload s).1 in
          let s' : X11State = deletions n request_id s1 in
          let written : Trace → List Text = writes r.event.requestor (response_property r.event) in
          Announced r.event s.atoms.incr (length payload) s.trace s1.trace
          × ((cs : List Text) × (written s'.trace ≡ written s.trace ++ (cs ++ ([] ∷ [])))
              × Chunks incr_chunk_size cs
              × (concat cs ≡ payload)
              × (lookup request_id s'.pending ≡ none))
    complete_request-Delivered n request_id payload s r e h k u m =
        let t : Trace = header_acts s r.event payload in
        let begun = started (w.now t + s.options.request_timeout_ms) r payload in
        let step = complete-begins request_id payload s r e h k in
        let s1 = (complete_request request_id Status.ok payload s).1 in
        let (cs, ws, ok, whole, gone) =
          deletions-Delivered accepts n request_id s1 begun
            (ap (λ x. lookup request_id x.pending) step
              ∙ lookup-inserted request_id (owner_incr_data begun) (remove request_id s.pending))
            (omega arith) u incr_chunk_size-pos (omega (arith, m)) in
        (
          ap (λ x. x.trace) step,
          (
            cs,
            ws
                ∙ ap (λ t. t ++ (cs ++ ([] ∷ [])))
                    (ap (λ x. writes r.event.requestor (response_property r.event) x.trace) step
                      ∙ simp append-nil),
            ok,
            whole,
            gone,
          ),
        )
