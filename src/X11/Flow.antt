-- ===== src/X11/Flow.antt =====
-- The flow control of a stream: the property is written only after the requestor has deleted it.
use clipbus.Base.{
  ℕ, suc, ◌≤◌, ◌+◌, ◌≡◌, ◌∷◌, [], List, none, some, true, lookup, remove, lookup-removed, arith,
  inl, inr, Bool-cases, Option-cases, ap, ◌∙◌,
}
use clipbus.Text.{Text, bytes}
use clipbus.Status.{Status, is_ok}
use clipbus.Clipboard.Notify.{notify_error}
use clipbus.Trace.{Act}
use clipbus.X11.State.{X11State, OwnerIncrStreamState}
use clipbus.X11.Server.{World}
use clipbus.X11.Connection.{notify}
use clipbus.X11.Incr.{as_owner_incr_stream}
use clipbus.X11.Stream.{
  abort_owner_stream, exceed_stream, write_to_stream, write_request_stream, end_stream,
  end_request_stream, mark_owner_stream_ready, drop_chunk_unless_ok,
}
use clipbus.X11.Spent.{
  written, spent, ready_by, notify_error-spent, write_owner_stream_chunk-spent,
  advance_owner_stream-spent, refuse_chunk-spent, queue_chunk-spent,
}

-- what a host or a requestor does to one stream
pub data StreamStep : Type 0 where
  chunk_given : Text → StreamStep
  end_given : Status → StreamStep
  deleted : StreamStep

abbrev pub deletions_in : List StreamStep → ℕ
deletions_in [] = 0
deletions_in (deleted ∷ steps) = suc (deletions_in steps)
deletions_in (_ ∷ steps) = deletions_in steps

deletions_in-cons :
    (step : StreamStep) (steps : List StreamStep)
    → deletions_in (step ∷ steps) ≡ deletions_in (step ∷ []) + deletions_in steps
deletions_in-cons step steps = ground arith

module _ ⦃w : World⦄ where
  abbrev pub stream_step : ℕ → StreamStep → X11State → X11State
  stream_step id (chunk_given payload) s = (write_request_stream id payload s).1
  stream_step id (end_given status) s = (end_request_stream id status s).1
  stream_step id deleted s = (mark_owner_stream_ready id s).1

  abbrev pub stream_steps : ℕ → List StreamStep → X11State → X11State
  stream_steps id [] s = s
  stream_steps id (step ∷ steps) s = stream_steps id steps (stream_step id step s)

  exceed_stream-spent :
      (id : ℕ) (stream : OwnerIncrStreamState) (s : X11State)
      → lookup id s.pending ≡ none
      → spent id (exceed_stream id stream s).1 ≤ written s.trace + ready_by stream
  unfolding exceed_stream abort_owner_stream
  exceed_stream-spent id stream s e =
      let message = bytes "stream exceeds target limit" in
      let (fine, same, pending) = notify_error-spent id Status.invalid_argument message s in
      let aborted : OwnerIncrStreamState = record stream {
        queued_chunk = none;
        queued_end = some Status.invalid_argument;
      } in
      let s1 = (notify {E = Text} (λ cb. notify_error cb Status.invalid_argument message) s).1 in
      ground
        (arith, fine, same, advance_owner_stream-spent id aborted s1 (ap (lookup id) pending ∙ e))

  write_to_stream-spent :
      (id : ℕ) (payload : Text) (stream : OwnerIncrStreamState) (s : X11State)
      → lookup id s.pending ≡ none
      → spent id (write_to_stream id payload stream s).1 ≤ written s.trace + ready_by stream
  unfolding write_to_stream
  write_to_stream-spent id payload stream s e = ground (
    arith,
    refuse_chunk-spent id stream Status.invalid_argument
        (bytes "stream chunk is empty or exceeds max_chunk_bytes") s,
    exceed_stream-spent id stream s e,
    refuse_chunk-spent id stream Status.invalid_argument
        (bytes "stream chunk written after stream end was queued") s,
    write_owner_stream_chunk-spent id stream payload s e,
    refuse_chunk-spent id stream Status.pending
        (bytes "stream already has a queued chunk waiting for requestor readiness") s,
    queue_chunk-spent id stream payload s,
  )

  write_request_stream-spent :
      (id : ℕ) (payload : Text) (s : X11State)
      → spent id (write_request_stream id payload s).1 ≤ spent id s
  unfolding write_request_stream
  write_request_stream-spent id payload s =
      let s1 : X11State = record s { pending = remove id s.pending } in
      let gone = lookup-removed id s.pending in
      elim (Option-cases (as_owner_incr_stream (lookup id s.pending))) [
        | inl e ↦ ground (
          arith,
          gone,
          notify_error-spent id Status.not_found (bytes "stream write request id was not pending")
              s1,
        )
        | inr (stream, e) ↦ ground (arith, write_to_stream-spent id payload stream s1 gone)
      ]

  end_stream-spent :
      (id : ℕ) (status : Status) (stream : OwnerIncrStreamState) (s : X11State)
      → lookup id s.pending ≡ none
      → spent id (end_stream id status stream s).1 ≤ written s.trace + ready_by stream
  unfolding end_stream drop_chunk_unless_ok
  end_stream-spent id status stream s e = elim (Bool-cases (is_ok status)) [
    | inl good ↦
        let ended : OwnerIncrStreamState = record stream {
          queued_end = some status;
          deadline = w.now s.trace + s.options.request_timeout_ms;
        } in
        ground (
          arith,
          advance_owner_stream-spent id ended (record s { trace = Act.read_clock ∷ s.trace }) e,
        )
    | inr bad ↦
        let message = bytes "stream ended with non-ok status" in
        let (fine, same, pending) = notify_error-spent id status message s in
        let s0 = (notify {E = Text} (λ cb. notify_error cb status message) s).1 in
        let ended : OwnerIncrStreamState = record stream {
          queued_chunk = none;
          queued_end = some status;
          deadline = w.now s0.trace + s0.options.request_timeout_ms;
        } in
        ground (
          arith,
          fine,
          same,
          advance_owner_stream-spent id ended (record s0 { trace = Act.read_clock ∷ s0.trace })
              (ap (lookup id) pending ∙ e),
        )
  ]

  end_request_stream-spent :
      (id : ℕ) (status : Status) (s : X11State)
      → spent id (end_request_stream id status s).1 ≤ spent id s
  unfolding end_request_stream
  end_request_stream-spent id status s =
      let s1 : X11State = record s { pending = remove id s.pending } in
      let gone = lookup-removed id s.pending in
      elim (Option-cases (as_owner_incr_stream (lookup id s.pending))) [
        | inl e ↦ ground (
          arith,
          gone,
          notify_error-spent id Status.not_found (bytes "stream end request id was not pending") s1,
        )
        | inr (stream, e) ↦ ground (arith, end_stream-spent id status stream s1 gone)
      ]

  mark_owner_stream_ready-spent :
      (id : ℕ) (s : X11State) → spent id (mark_owner_stream_ready id s).1 ≤ spent id s + 1
  unfolding mark_owner_stream_ready
  mark_owner_stream_ready-spent id s =
      let s1 : X11State = record s { pending = remove id s.pending } in
      let gone = lookup-removed id s.pending in
      elim (Option-cases (as_owner_incr_stream (lookup id s.pending))) [
        | inl e ↦ ground (
          arith,
          gone,
          notify_error-spent id Status.not_found (bytes "stream write request id was not pending")
              s1,
        )
        | inr (stream, e) ↦ ground (
          arith,
          advance_owner_stream-spent id
              (record stream {
                ready = true;
                deadline = w.now s.trace + s.options.request_timeout_ms;
              })
              (record s1 { trace = Act.read_clock ∷ s.trace }) gone,
        )
      ]

  stream_step-spent :
      (id : ℕ) (step : StreamStep) (s : X11State)
      → spent id (stream_step id step s) ≤ spent id s + deletions_in (step ∷ [])
  stream_step-spent id (chunk_given payload) s =
      omega (arith, write_request_stream-spent id payload s)
  stream_step-spent id (end_given status) s = omega (arith, end_request_stream-spent id status s)
  stream_step-spent id deleted s = omega (arith, mark_owner_stream_ready-spent id s)

  -- Whatever the host writes and ends and whatever the server refuses, over any steps of one stream
  -- the properties are written at most as often as the requestor has deleted the stream's, and once
  -- more if it was deleted and not written before.
  pub stream_steps-written :
      (id : ℕ) (steps : List StreamStep) (s : X11State)
      → written (stream_steps id steps s).trace ≤ spent id s + deletions_in steps
  stream_steps-written id [] s = omega arith
  stream_steps-written id (step ∷ steps) s = omega (
    arith,
    stream_step-spent id step s,
    stream_steps-written id steps (stream_step id step s),
    deletions_in-cons step steps,
  )
