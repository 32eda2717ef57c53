-- ===== src/X11/Stream.antt =====
-- The owner's streaming INCR transfer: the host writes one chunk whenever the requestor has deleted
-- the property, and ends the stream.
use clipbus.Base.{
  ℕ, ◌∷◌, [], Option, none, some, true, false, ◌||◌, min, length, u32_max, saturating_add, ltb,
  ◌==◌, if◌then◌else◌, is_some,
}
use clipbus.Text.{Text, bytes}
use clipbus.Status.{Status, is_ok}
use clipbus.Clipboard.Notify.{notify_error, notify_stream_ready}
use clipbus.Trace.{Act}
use clipbus.X11.State.{OwnerData, OwnerIncrStreamState, owner_incr_stream}
use clipbus.X11.Server.{World}
use clipbus.X11.Monad.{Done, pure, gets, ◌>>=◌, ◌>>◌, submit, insert_pending, remove_pending}
use clipbus.X11.Connection.{
  notify, response_property, incr_chunk_size, owner_request_deadline, send_selection_notify,
  fail_selection_request,
}
use clipbus.X11.Incr.{as_owner_data, as_owner_incr_stream}

module _ ⦃w : World⦄ where
  -- the state of a stream that has just begun
  abbrev pub new_stream : OwnerData → ℕ → OwnerIncrStreamState
  new_stream r deadline = record {
    requestor = r.event.requestor;
    property = response_property r.event;
    target_atom = r.target.atom;
    native_target = r.target.name;
    max_bytes = r.target.max_bytes;
    written_bytes = 0;
    chunk_size = incr_chunk_size;
    ready = false;
    queued_chunk = none;
    queued_end = none;
    deadline = deadline;
  }

  -- the state after a chunk was written
  abbrev pub written_stream : OwnerIncrStreamState → Text → ℕ → OwnerIncrStreamState
  written_stream stream chunk deadline = record stream {
    written_bytes = saturating_add stream.written_bytes (length chunk);
    ready = false;
    deadline = deadline;
  }

  -- the INCR header, and the new stream
  unfoldable pub open_stream : ℕ → ℕ → OwnerData → Done
  unfolding submit send_selection_notify response_property owner_request_deadline insert_pending
      ◌>>=◌
  open_stream request_id estimated_bytes r = do
    submit "failed to subscribe to streaming INCR requestor events"
        (Act.change_window_attributes r.event.requestor)
    incr ← gets (λ s. s.atoms.incr)
    submit "failed to write streaming INCR header" (
        Act.change_property32 r.event.requestor (response_property r.event) incr
          (min estimated_bytes u32_max ∷ []))
    send_selection_notify r.event (response_property r.event)
    deadline ← owner_request_deadline
    insert_pending request_id (owner_incr_stream (new_stream r deadline))

  unfoldable pub refuse_stream : OwnerData → Done
  unfolding notify fail_selection_request ◌>>=◌
  refuse_stream r = do
    notify λ cb.
        notify_error cb Status.invalid_argument
          (bytes "stream estimated bytes exceeds target limit")
    fail_selection_request r.event

  unfoldable pub begin_stream : ℕ → ℕ → OwnerData → Done
  unfolding refuse_stream open_stream
  begin_stream request_id estimated_bytes r =
      if ltb r.target.max_bytes estimated_bytes
      then refuse_stream r
      else open_stream request_id estimated_bytes r

  unfoldable pub begin_request_stream : ℕ → ℕ → Done
  unfolding remove_pending notify begin_stream ◌>>=◌
  begin_request_stream request_id estimated_bytes = do
    removed ← remove_pending request_id
    elim (as_owner_data removed) [
      | none ↦
          notify
            λ cb. notify_error cb Status.not_found (bytes "stream begin request id was not pending")
      | some r ↦ begin_stream request_id estimated_bytes r
    ]

  unfoldable pub write_owner_stream_chunk : ℕ → OwnerIncrStreamState → Text → Done
  unfolding submit owner_request_deadline insert_pending ◌>>=◌
  write_owner_stream_chunk request_id stream chunk = do
    submit "failed to write streaming INCR chunk"
        (Act.change_property8 stream.requestor stream.property stream.target_atom chunk)
    submit "failed to flush streaming INCR chunk" Act.flush
    deadline ← owner_request_deadline
    insert_pending request_id (owner_incr_stream (written_stream stream chunk deadline))

  unfoldable pub finish_owner_stream : OwnerIncrStreamState → Done
  unfolding submit ◌>>=◌
  finish_owner_stream stream = do
    submit "failed to write streaming INCR terminator"
        (Act.change_property8 stream.requestor stream.property stream.target_atom [])
    submit "failed to flush streaming INCR terminator" Act.flush

  -- nothing is queued: ask the host for a chunk
  unfoldable pub ask_for_chunk : ℕ → OwnerIncrStreamState → Done
  unfolding owner_request_deadline notify insert_pending ◌>>=◌
  ask_for_chunk request_id stream = do
    deadline ← owner_request_deadline
    timeout ← gets (λ s. s.options.request_timeout_ms)
    notify λ cb. notify_stream_ready cb request_id stream.native_target stream.chunk_size timeout
    insert_pending request_id (owner_incr_stream (record stream { deadline = deadline }))

  unfoldable pub advance_ready_stream :
      ℕ → OwnerIncrStreamState → Option Text → Option Status → Done
  unfolding write_owner_stream_chunk finish_owner_stream ask_for_chunk
  advance_ready_stream request_id stream (some chunk) end =
      write_owner_stream_chunk request_id (record stream { queued_chunk = none }) chunk
  advance_ready_stream request_id stream none (some status) = finish_owner_stream stream
  advance_ready_stream request_id stream none none = ask_for_chunk request_id stream

  unfoldable pub advance_owner_stream : ℕ → OwnerIncrStreamState → Done
  unfolding insert_pending advance_ready_stream
  advance_owner_stream request_id stream =
      if stream.ready
      then advance_ready_stream request_id stream stream.queued_chunk stream.queued_end
      else insert_pending request_id (owner_incr_stream stream)

  unfoldable pub abort_owner_stream : ℕ → OwnerIncrStreamState → Done
  unfolding advance_owner_stream
  abort_owner_stream request_id stream =
      advance_owner_stream request_id
        (record stream { queued_chunk = none; queued_end = some Status.invalid_argument })

  -- a write that is refused leaves the stream as it was
  unfoldable pub refuse_chunk : ℕ → OwnerIncrStreamState → Status → Text → Done
  unfolding notify insert_pending ◌>>=◌
  refuse_chunk request_id stream status message = do
    notify λ cb. notify_error cb status message
    insert_pending request_id (owner_incr_stream stream)

  unfoldable pub exceed_stream : ℕ → OwnerIncrStreamState → Done
  unfolding notify abort_owner_stream ◌>>=◌
  exceed_stream request_id stream = do
    notify λ cb. notify_error cb Status.invalid_argument (bytes "stream exceeds target limit")
    abort_owner_stream request_id stream

  unfoldable pub queue_chunk : ℕ → OwnerIncrStreamState → Text → Done
  unfolding owner_request_deadline insert_pending ◌>>=◌
  queue_chunk request_id stream payload = do
    deadline ← owner_request_deadline
    insert_pending request_id
        (owner_incr_stream (record stream { queued_chunk = some payload; deadline = deadline }))

  unfoldable pub write_to_stream : ℕ → Text → OwnerIncrStreamState → Done
  unfolding refuse_chunk exceed_stream write_owner_stream_chunk queue_chunk
  write_to_stream request_id payload stream =
      if (length payload == 0) || ltb stream.chunk_size (length payload)
      then refuse_chunk request_id stream Status.invalid_argument
          (bytes "stream chunk is empty or exceeds max_chunk_bytes")
      else if ltb stream.max_bytes (saturating_add stream.written_bytes (length payload))
      then exceed_stream request_id stream
      else if is_some stream.queued_end
      then refuse_chunk request_id stream Status.invalid_argument
          (bytes "stream chunk written after stream end was queued")
      else if stream.ready
      then write_owner_stream_chunk request_id stream payload
      else if is_some stream.queued_chunk
      then refuse_chunk request_id stream Status.pending
          (bytes "stream already has a queued chunk waiting for requestor readiness")
      else queue_chunk request_id stream payload

  unfoldable pub write_request_stream : ℕ → Text → Done
  unfolding remove_pending notify write_to_stream ◌>>=◌
  write_request_stream request_id payload = do
    removed ← remove_pending request_id
    elim (as_owner_incr_stream removed) [
      | none ↦
          notify
            λ cb. notify_error cb Status.not_found (bytes "stream write request id was not pending")
      | some stream ↦ write_to_stream request_id payload stream
    ]

  -- a stream that ends badly loses its queued chunk
  unfoldable pub drop_chunk_unless_ok : Status → OwnerIncrStreamState → OwnerIncrStreamState
  drop_chunk_unless_ok status stream =
      if is_ok status then stream else record stream { queued_chunk = none }

  unfoldable pub end_stream : ℕ → Status → OwnerIncrStreamState → Done
  unfolding notify owner_request_deadline advance_owner_stream drop_chunk_unless_ok ◌>>=◌
  end_stream request_id status stream = do
    if is_ok status
        then pure tt
        else notify λ cb. notify_error cb status (bytes "stream ended with non-ok status")
    deadline ← owner_request_deadline
    advance_owner_stream request_id (record (drop_chunk_unless_ok status stream) {
      queued_end = some status;
      deadline = deadline;
    })

  unfoldable pub end_request_stream : ℕ → Status → Done
  unfolding remove_pending notify end_stream
  end_request_stream request_id status = do
    removed ← remove_pending request_id
    elim (as_owner_incr_stream removed) [
      | none ↦
          notify
            λ cb. notify_error cb Status.not_found (bytes "stream end request id was not pending")
      | some stream ↦ end_stream request_id status stream
    ]

  unfoldable pub mark_owner_stream_ready : ℕ → Done
  unfolding remove_pending owner_request_deadline advance_owner_stream ◌>>=◌
  mark_owner_stream_ready request_id = do
    removed ← remove_pending request_id
    elim (as_owner_incr_stream removed) [
      | none ↦ pure tt
      | some stream ↦ (do
        deadline ← owner_request_deadline
        advance_owner_stream request_id (record stream { ready = true; deadline = deadline }))
    ]
