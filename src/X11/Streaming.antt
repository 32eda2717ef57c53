-- ===== src/X11/Streaming.antt =====
-- A stream from its first chunk to its end, with a host that writes a chunk after each deletion.
use clipbus.Base.{
  ℕ, ok, ◌≤◌, ◌+◌, ◌≡◌, ◌∷◌, [], ◌++◌, List, none, some, true, false, lookup, remove, insert,
  lookup-removed, length, length-append, arith, ap, ◌∙◌, saturating_add, u64_max, ==_refl,
}
use mathlib.Core.List.{append-nil, append_assoc}
use clipbus.Text.{Text}
use clipbus.Status.{Status}
use clipbus.Clipboard.Notify.{notify_stream_ready}
use clipbus.Trace.{Act, Trace, Window, Atom}
use clipbus.X11.State.{X11State, OwnerIncrStreamState, owner_incr_stream}
use clipbus.X11.Server.{World}
use clipbus.X11.Monad.{record_acts}
use clipbus.X11.Connection.{notify}
use clipbus.X11.Stream.{
  mark_owner_stream_ready, advance_owner_stream, advance_ready_stream, ask_for_chunk,
  write_request_stream, write_to_stream, write_owner_stream_chunk, end_request_stream, end_stream,
  finish_owner_stream,
}
use clipbus.X11.Accepts.{Accepts}
use clipbus.X11.Chunks.{writes, concat, Chunks}
use clipbus.X11.Flow.{StreamStep, chunk_given, end_given, deleted, stream_step, stream_steps}

-- The stream with this state is pending, up to its deadline.
abbrev pub Streams : ℕ → OwnerIncrStreamState → X11State → Type 0
Streams id st s =
    (d : ℕ) × (lookup id s.pending ≡ some (owner_incr_stream (record st { deadline = d })))

abbrev pub Idle : OwnerIncrStreamState → Type 0
Idle st = (st.ready ≡ false) × (st.queued_chunk ≡ none) × (st.queued_end ≡ none)

-- a chunk after each deletion, and the end after the last
abbrev pub session : List Text → List StreamStep
session [] = deleted ∷ end_given Status.ok ∷ []
session (c ∷ cs) = deleted ∷ chunk_given c ∷ session cs

module _ ⦃w : World⦄ where
  notify_stream_ready-quiet :
      (window : Window) (property : Atom) (id : ℕ) (name : Text) (size timeout : ℕ) (s : X11State)
      → let (r, s') = notify {E = Text} (λ cb. notify_stream_ready cb id name size timeout) s in
        (r ≡ ok tt)
        × (writes window property s'.trace ≡ writes window property s.trace)
        × (s'.pending ≡ s.pending)
  unfolding notify notify_stream_ready record_acts
  notify_stream_ready-quiet window property id name size timeout s =
      ground (arith, append-nil (writes window property s.trace))

  deleted-step :
      (id : ℕ) (st : OwnerIncrStreamState) (s : X11State)
      → Streams id st s
      → Idle st
      → let s' = stream_step id deleted s in
        Streams id (record st { ready = true }) s'
        × (writes st.requestor st.property s'.trace ≡ writes st.requestor st.property s.trace)
  unfolding mark_owner_stream_ready advance_owner_stream advance_ready_stream ask_for_chunk lookup
      insert
  deleted-step id st s (d, e) (r, q, n) =
      let clock : Act = Act.read_clock in
      let s2 : X11State = record s {
        trace = clock ∷ clock ∷ s.trace;
        pending = remove id s.pending;
      } in
      let (fine, same, kept) =
        notify_stream_ready-quiet st.requestor st.property id st.native_target st.chunk_size
          s.options.request_timeout_ms s2 in
      let nil = append-nil (writes st.requestor st.property s.trace) in
      (
        (w.now (clock ∷ s.trace) + s.options.request_timeout_ms, ground (arith, fine, kept)),
        ground (arith, fine, same, nil),
      )

  module _ (accepts : Accepts w) where
    chunk-step :
        (id : ℕ) (st : OwnerIncrStreamState) (c : Text) (s : X11State)
        → Streams id (record st { ready = true }) s
        → Idle st
        → (1 ≤ length c) × (length c ≤ st.chunk_size)
        → saturating_add st.written_bytes (length c) ≤ st.max_bytes
        → let s' = stream_step id (chunk_given c) s in
          Streams id (record st { written_bytes = saturating_add st.written_bytes (length c) }) s'
          × (writes st.requestor st.property s'.trace
              ≡ writes st.requestor st.property s.trace ++ (c ∷ []))
    unfolding write_request_stream write_to_stream write_owner_stream_chunk lookup insert
    chunk-step id st c s (d, e) (r, q, n) h k =
        let write : Act = Act.change_property8 st.requestor st.property st.target_atom c in
        let t : Trace = Act.flush ∷ write ∷ s.trace in
        let a = accepts s.trace write in
        let b = accepts (write ∷ s.trace) Act.flush in
        (
          (w.now t + s.options.request_timeout_ms, ground (arith, a, b)),
          ground (
            arith,
            a,
            b,
            append-nil (writes st.requestor st.property s.trace ++ (c ∷ [])),
            ==_refl st.requestor,
            ==_refl st.property,
          ),
        )

    end-step :
        (id : ℕ) (st : OwnerIncrStreamState) (s : X11State)
        → Streams id (record st { ready = true }) s
        → Idle st
        → let s' = stream_step id (end_given Status.ok) s in
          (lookup id s'.pending ≡ none)
          × (writes st.requestor st.property s'.trace
              ≡ writes st.requestor st.property s.trace ++ ([] ∷ []))
    unfolding end_request_stream end_stream advance_owner_stream advance_ready_stream
        finish_owner_stream lookup
    end-step id st s (d, e) (r, q, n) =
        let write : Act = Act.change_property8 st.requestor st.property st.target_atom [] in
        let t : Trace = Act.read_clock ∷ s.trace in
        let a = accepts t write in
        let b = accepts (write ∷ t) Act.flush in
        (
          ground (arith, a, b, lookup-removed id s.pending),
          ground (
            arith,
            a,
            b,
            append-nil (writes st.requestor st.property s.trace),
            append-nil (writes st.requestor st.property s.trace ++ ([] ∷ [])),
            ==_refl st.requestor,
            ==_refl st.property,
          ),
        )

    -- On a connection that accepts each request: a stream pends, has written nothing that its limit
    -- and the chunks do not leave room for, and waits with nothing queued. The host answers each
    -- deletion of the property with one chunk of at least one byte and at most the chunk size, and
    -- the last with the end of the stream. Then what was written to the property since are those
    -- chunks, in order, and then an empty one; and the request is no longer pending.
    pub session-writes :
        (id : ℕ) (cs : List Text) (st : OwnerIncrStreamState) (s : X11State)
        → Streams id st s
        → Idle st
        → Chunks st.chunk_size cs
        → st.written_bytes + length (concat cs) ≤ st.max_bytes
        → st.max_bytes ≤ u64_max
        → let s' = stream_steps id (session cs) s in
          (lookup id s'.pending ≡ none)
          × (writes st.requestor st.property s'.trace
              ≡ writes st.requestor st.property s.trace ++ (cs ++ ([] ∷ [])))
    session-writes id [] st s on idle chunks room max =
        let s1 = stream_step id deleted s in
        let (on1, same) = deleted-step id st s on idle in
        let (gone, ended) = end-step id st s1 on1 idle in
        (gone, ended ∙ ap (λ ws. ws ++ ([] ∷ [])) same)
    session-writes id (c ∷ cs) st s on idle (pos, fits, chunks) room max =
        let s1 = stream_step id deleted s in
        let (on1, same) = deleted-step id st s on idle in
        let total = length-append c (concat cs) in
        let s2 = stream_step id (chunk_given c) s1 in
        let (on2, wrote) =
          chunk-step id st c s1 on1 idle (pos, fits) (omega (arith, total, room, max)) in
        let st2 : OwnerIncrStreamState = record st {
          written_bytes = saturating_add st.written_bytes (length c);
        } in
        let (gone, ended) =
          session-writes id cs st2 s2 on2 idle chunks (omega (arith, total, room, max)) max in
        (
          gone,
          ended
              ∙ ap (λ ws. ws ++ (cs ++ ([] ∷ []))) (wrote ∙ ap (λ ws. ws ++ (c ∷ [])) same)
              ∙ append_assoc (writes st.requestor st.property s.trace) (c ∷ []) (cs ++ ([] ∷ [])),
        )
