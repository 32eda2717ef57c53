-- ===== src/X11/StreamStart.antt =====
-- A stream from the host's begin to its end.
use clipbus.Base.{
  ℕ, ◌≤◌, ◌+◌, ◌≡◌, ◌∷◌, [], ◌++◌, List, none, some, lookup, remove, insert, length, arith, refl,
  ap, ◌∙◌, u64_max, u32_max, min,
}
use mathlib.Core.List.{append-nil}
use clipbus.Text.{Text}
use clipbus.Trace.{Act, Trace}
use clipbus.X11.State.{X11State, OwnerData, owner_data}
use clipbus.X11.Server.{World}
use clipbus.X11.Connection.{response_property, incr_chunk_size}
use clipbus.X11.Stream.{begin_request_stream, begin_stream, open_stream, new_stream}
use clipbus.X11.Accepts.{Accepts, Announced, notification, send_selection_notify-Notified}
use clipbus.X11.Chunks.{writes, concat, Chunks}
use clipbus.X11.Flow.{stream_steps}
use clipbus.X11.Streaming.{Streams, session, session-writes}

module _ ⦃w : World⦄ where
  module _ (accepts : Accepts w) where
    abbrev begun_acts : X11State → OwnerData → ℕ → Trace
    begun_acts s r estimated =
        Act.change_property32 r.event.requestor (response_property r.event) s.atoms.incr
          (min estimated u32_max ∷ [])
        ∷ Act.change_window_attributes r.event.requestor
        ∷ s.trace

    begin-step :
        (id estimated : ℕ) (r : OwnerData) (s : X11State)
        → lookup id s.pending ≡ some (owner_data r)
        → estimated ≤ r.target.max_bytes
        → let s' = (begin_request_stream id estimated s).1 in
          Announced r.event s.atoms.incr estimated s.trace s'.trace
          × Streams id (new_stream r 0) s'
          × (writes r.event.requestor (response_property r.event) s'.trace
              ≡ writes r.event.requestor (response_property r.event) s.trace)
    unfolding begin_request_stream begin_stream open_stream lookup insert
    begin-step id estimated r s e h =
        let s1 : X11State = record s {
          pending = remove id s.pending;
          trace = begun_acts s r estimated;
        } in
        let subscribe = Act.change_window_attributes r.event.requestor in
        let a = accepts s.trace subscribe in
        let b = accepts (subscribe ∷ s.trace) (
          Act.change_property32 r.event.requestor (response_property r.event) s.atoms.incr
            (min estimated u32_max ∷ [])) in
        let c = send_selection_notify-Notified accepts r.event (response_property r.event) s1 in
        let nil = append-nil (writes r.event.requestor (response_property r.event) s.trace) in
        let t : Trace =
          Act.flush ∷ notification r.event (response_property r.event) ∷ begun_acts s r estimated in
        (
          ground (arith, a, b, c),
          (w.now t + s.options.request_timeout_ms, ground (arith, a, b, c)),
          ground (arith, a, b, c, nil),
        )

    -- On a connection that accepts each request: a request for a target pends, and the host begins a
    -- stream whose estimate is within the target's limit, which is a usize. An INCR transfer is
    -- announced: a subscription to the requestor's property events, the header with the estimate,
    -- and a SelectionNotify that names the property are all that is sent. The host answers each
    -- deletion of the property
    -- with one chunk of at least one byte and at most the chunk size, all together within the limit,
    -- and the last with the end of the stream. Then what was written to the property since are those
    -- chunks, in order, and then an empty one; and the request is no longer pending.
    pub begin_request_stream-writes :
        (id estimated : ℕ) (cs : List Text) (r : OwnerData) (s : X11State)
        → lookup id s.pending ≡ some (owner_data r)
        → estimated ≤ r.target.max_bytes
        → Chunks incr_chunk_size cs
        → length (concat cs) ≤ r.target.max_bytes
        → r.target.max_bytes ≤ u64_max
        → let s1 = (begin_request_stream id estimated s).1 in
          let s' = stream_steps id (session cs) s1 in
          let to_requestor : Trace → List Text =
            writes r.event.requestor (response_property r.event) in
          Announced r.event s.atoms.incr estimated s.trace s1.trace
          × (lookup id s'.pending ≡ none)
          × (to_requestor s'.trace ≡ to_requestor s.trace ++ (cs ++ ([] ∷ [])))
    begin_request_stream-writes id estimated cs r s e h chunks room max =
        let (announced, on, same) = begin-step id estimated r s e h in
        let (gone, ended) =
          session-writes accepts id cs (new_stream r 0) (begin_request_stream id estimated s).1 on
            (refl, refl, refl) chunks (omega (arith, room)) max in
        (announced, gone, ended ∙ ap (λ ws. ws ++ (cs ++ ([] ∷ []))) same)
