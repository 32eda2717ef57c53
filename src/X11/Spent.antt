-- ===== src/X11/Spent.antt =====
-- What each part of a stream's step adds to the writes of properties.
use clipbus.Base.{
  ℕ, suc, ◌≤◌, ◌+◌, ◌≡◌, ◌∷◌, [], Option, none, some, true, lookup, insert, if◌then◌else◌, arith,
  ok, inl, inr, Bool-cases,
}
use clipbus.Text.{Text}
use clipbus.Status.{Status}
use clipbus.Clipboard.Notify.{notify_error, notify_stream_ready}
use clipbus.Trace.{Act, Trace}
use clipbus.X11.State.{X11State, PendingRequest, OwnerIncrStreamState, owner_incr_stream}
use clipbus.X11.Server.{World}
use clipbus.X11.Monad.{record_acts}
use clipbus.X11.Connection.{notify}
use clipbus.X11.Stream.{
  write_owner_stream_chunk, finish_owner_stream, ask_for_chunk, advance_ready_stream,
  advance_owner_stream, refuse_chunk, queue_chunk,
}

-- how many times a property was written
abbrev pub written : Trace → ℕ
written [] = 0
written (Act.change_property8 window property type_ payload ∷ t) = suc (written t)
written (_ ∷ t) = written t

-- 1 for a stream whose property is deleted and not written yet
abbrev pub owed_by : Option PendingRequest → ℕ
owed_by (some (owner_incr_stream stream)) = if stream.ready then 1 else 0
owed_by _ = 0

-- the writes so far, and one more if the stream may write at once
abbrev pub spent : ℕ → X11State → ℕ
spent id s = written s.trace + owed_by (lookup id s.pending)

abbrev pub ready_by : OwnerIncrStreamState → ℕ
ready_by stream = if stream.ready then 1 else 0

module _ ⦃w : World⦄ where
  pub notify_error-spent :
      (id : ℕ) (status : Status) (message : Text) (s : X11State)
      → let s' = (notify {E = Text} (λ cb. notify_error cb status message) s).1 in
        ((notify {E = Text} (λ cb. notify_error cb status message) s).0 ≡ ok tt)
        × (written s'.trace ≡ written s.trace)
        × (s'.pending ≡ s.pending)
  unfolding notify notify_error record_acts
  notify_error-spent id status message s = ground arith

  pub notify_stream_ready-spent :
      (id : ℕ) (name : Text) (size timeout : ℕ) (s : X11State)
      → let s' = (notify {E = Text} (λ cb. notify_stream_ready cb id name size timeout) s).1 in
        ((notify {E = Text} (λ cb. notify_stream_ready cb id name size timeout) s).0 ≡ ok tt)
        × (written s'.trace ≡ written s.trace)
        × (s'.pending ≡ s.pending)
  unfolding notify notify_stream_ready record_acts
  notify_stream_ready-spent id name size timeout s = ground arith

  pub write_owner_stream_chunk-spent :
      (id : ℕ) (stream : OwnerIncrStreamState) (chunk : Text) (s : X11State)
      → lookup id s.pending ≡ none
      → spent id (write_owner_stream_chunk id stream chunk s).1 ≤ written s.trace + 1
  unfolding write_owner_stream_chunk lookup insert
  write_owner_stream_chunk-spent id stream chunk s e = ground arith

  pub finish_owner_stream-spent :
      (id : ℕ) (stream : OwnerIncrStreamState) (s : X11State)
      → lookup id s.pending ≡ none
      → spent id (finish_owner_stream stream s).1 ≤ written s.trace + 1
  unfolding finish_owner_stream
  finish_owner_stream-spent id stream s e = ground arith

  pub ask_for_chunk-spent :
      (id : ℕ) (stream : OwnerIncrStreamState) (s : X11State)
      → spent id (ask_for_chunk id stream s).1 ≤ written s.trace + ready_by stream
  unfolding ask_for_chunk lookup insert
  ask_for_chunk-spent id stream s =
      let s1 : X11State = record s { trace = Act.read_clock ∷ s.trace } in
      ground (
        arith,
        notify_stream_ready-spent id stream.native_target stream.chunk_size
            s.options.request_timeout_ms s1,
      )

  pub advance_ready_stream-spent :
      (id : ℕ) (stream : OwnerIncrStreamState) (chunk : Option Text) (end : Option Status)
      (s : X11State)
      → lookup id s.pending ≡ none
      → stream.ready ≡ true
      → spent id (advance_ready_stream id stream chunk end s).1 ≤ written s.trace + 1
  unfolding advance_ready_stream
  advance_ready_stream-spent id stream (some chunk) end s e r =
      write_owner_stream_chunk-spent id (record stream { queued_chunk = none }) chunk s e
  advance_ready_stream-spent id stream none (some status) s e r =
      finish_owner_stream-spent id stream s e
  advance_ready_stream-spent id stream none none s e r =
      ground (arith, ask_for_chunk-spent id stream s)

  pub advance_owner_stream-spent :
      (id : ℕ) (stream : OwnerIncrStreamState) (s : X11State)
      → lookup id s.pending ≡ none
      → spent id (advance_owner_stream id stream s).1 ≤ written s.trace + ready_by stream
  unfolding advance_owner_stream lookup insert
  advance_owner_stream-spent id stream s e = elim (Bool-cases stream.ready) [
    | inl r ↦
        ground
          (arith, advance_ready_stream-spent id stream stream.queued_chunk stream.queued_end s e r)
    | inr r ↦ ground arith
  ]

  pub refuse_chunk-spent :
      (id : ℕ) (stream : OwnerIncrStreamState) (status : Status) (message : Text) (s : X11State)
      → spent id (refuse_chunk id stream status message s).1 ≤ written s.trace + ready_by stream
  unfolding refuse_chunk lookup insert
  refuse_chunk-spent id stream status message s =
      ground (arith, notify_error-spent id status message s)

  pub queue_chunk-spent :
      (id : ℕ) (stream : OwnerIncrStreamState) (payload : Text) (s : X11State)
      → spent id (queue_chunk id stream payload s).1 ≤ written s.trace + ready_by stream
  unfolding queue_chunk lookup insert
  queue_chunk-spent id stream payload s = ground arith
