-- ===== src/X11/Sound/Stream.antt =====
-- The invariant under the handlers of X11/Stream.antt.
use Prim.Native.Nat.{zero-le}
use native.Mathlib.Nat.{le_trans}
use mathlib.Core.Option.{some-injective}
use clipbus.Base.{
  ℕ, ◌≤◌, ◌≡◌, inl, inr, refl, Option, none, some, true, length, arith, saturating_add, ltb, ◌==◌,
  ◌||◌, is_some, subst,
}
use clipbus.Text.{Text, bytes}
use clipbus.Status.{Status}
use clipbus.X11.State.{OwnerData, OwnerIncrStreamState, PendingRequest, owner_incr_stream}
use clipbus.X11.Server.{World}
use clipbus.X11.Monad.{M, ◌>>=◌}
use clipbus.Clipboard.Notify.{notify_error}
use clipbus.X11.Connection.{notify, owner_request_deadline, incr_chunk_size}
use clipbus.X11.Incr.{as_owner_data, as_owner_incr_stream}
use clipbus.X11.Stream.{
  new_stream, written_stream, open_stream, refuse_stream, begin_stream, begin_request_stream,
  write_owner_stream_chunk, finish_owner_stream, ask_for_chunk, advance_ready_stream,
  advance_owner_stream, abort_owner_stream, refuse_chunk, exceed_stream, queue_chunk,
  write_to_stream, write_request_stream, drop_chunk_unless_ok, end_stream, end_request_stream,
  mark_owner_stream_ready,
}
use clipbus.X11.Sound.Invariant.{Issued, Sound, queued_length}
use clipbus.X11.Sound.Rules.{
  Keeps, Keeps-take, Keeps-pure, Keeps-if, Keeps-bind, Keeps-insert_pending,
}
use clipbus.X11.Sound.Connection.{connection_rules, Keeps-owner_request_deadline}
use clipbus.X11.Sound.Incr.{chunk_fits}

module _ ⦃w : World⦄ (id : ℕ) where
  abbrev Here : {E A : Type 0} → M E A → Type 0
  Here = Keeps (λ next. Issued next id)

  abbrev SoundStream : OwnerIncrStreamState → Type 0
  SoundStream r = Sound (owner_incr_stream r)

  new_stream-Sound : (r : OwnerData) (deadline : ℕ) → SoundStream (new_stream r deadline)
  new_stream-Sound r deadline = ground arith

  Keeps-open_stream :
      (estimated_bytes : ℕ) (r : OwnerData) → Here (open_stream id estimated_bytes r)
  unfolding open_stream
  Keeps-open_stream estimated_bytes r = search (connection_rules, new_stream-Sound) depth 16

  Keeps-refuse_stream : (r : OwnerData) → Here (refuse_stream r)
  unfolding refuse_stream
  Keeps-refuse_stream r = search connection_rules

  written_stream-Sound :
      (r : OwnerIncrStreamState) (chunk : Text) (deadline : ℕ)
      → saturating_add r.written_bytes (length chunk) ≤ r.max_bytes
      → r.chunk_size ≡ incr_chunk_size
      → r.queued_chunk ≡ none
      → SoundStream (written_stream r chunk deadline)
  written_stream-Sound r chunk deadline fits size empty = ground arith

  Keeps-write_owner_stream_chunk :
      (r : OwnerIncrStreamState) (chunk : Text)
      → saturating_add r.written_bytes (length chunk) ≤ r.max_bytes
      → length chunk ≤ incr_chunk_size
      → r.chunk_size ≡ incr_chunk_size
      → r.queued_chunk ≡ none
      → Here (write_owner_stream_chunk id r chunk)
  unfolding write_owner_stream_chunk
  Keeps-write_owner_stream_chunk r chunk fits short size empty =
      search
        (
          connection_rules,
          le_trans short chunk_fits,
          λ (deadline : ℕ). written_stream-Sound r chunk deadline fits size empty,
        )
        depth 10

  Keeps-finish_owner_stream : (r : OwnerIncrStreamState) → Here (finish_owner_stream r)
  unfolding finish_owner_stream
  Keeps-finish_owner_stream r = search (connection_rules, zero-le)

  Keeps-ask_for_chunk : (r : OwnerIncrStreamState) → SoundStream r → Here (ask_for_chunk id r)
  unfolding ask_for_chunk
  Keeps-ask_for_chunk r h = search (connection_rules, h.2, h) depth 10

  -- what a stream has to satisfy for advance_owner_stream: the bounds
  abbrev Bounded : OwnerIncrStreamState → Type 0
  Bounded r =
      (saturating_add r.written_bytes (queued_length r.queued_chunk) ≤ r.max_bytes)
      × (queued_length r.queued_chunk ≤ incr_chunk_size)
      × (r.chunk_size ≡ incr_chunk_size)

  Keeps-advance_ready_stream :
      (r : OwnerIncrStreamState) (chunk : Option Text) (end : Option Status)
      → r.queued_chunk ≡ chunk
      → r.queued_end ≡ end
      → Bounded r
      → Here (advance_ready_stream id r chunk end)
  unfolding advance_ready_stream
  Keeps-advance_ready_stream r (some chunk) end c e h =
      Keeps-write_owner_stream_chunk (record r { queued_chunk = none }) chunk (ground arith)
        (ground arith) h.2 refl
  Keeps-advance_ready_stream r none (some status) c e h = Keeps-finish_owner_stream r
  Keeps-advance_ready_stream r none none c e h = Keeps-ask_for_chunk r (h.0, h.1, h.2, inr (c, e))

  Keeps-advance_owner_stream :
      (r : OwnerIncrStreamState) → Bounded r → Here (advance_owner_stream id r)
  unfolding advance_owner_stream
  Keeps-advance_owner_stream r h =
      Keeps-if r.ready _ _ (λ ready. Keeps-advance_ready_stream r _ _ refl refl h)
        (λ idle. Keeps-insert_pending id _ (h.0, h.1, h.2, inl idle))

  Keeps-abort_owner_stream :
      (r : OwnerIncrStreamState) → SoundStream r → Here (abort_owner_stream id r)
  unfolding abort_owner_stream
  Keeps-abort_owner_stream r h =
      Keeps-advance_owner_stream
        (record r { queued_chunk = none; queued_end = some Status.invalid_argument }) (ground arith)

  Keeps-refuse_chunk :
      (r : OwnerIncrStreamState) (status : Status) (message : Text)
      → SoundStream r
      → Here (refuse_chunk id r status message)
  unfolding refuse_chunk
  Keeps-refuse_chunk r status message h = search (connection_rules, h)

  Keeps-exceed_stream : (r : OwnerIncrStreamState) → SoundStream r → Here (exceed_stream id r)
  unfolding exceed_stream
  Keeps-exceed_stream r h =
      Keeps-bind
        (notify λ cb. notify_error cb Status.invalid_argument (bytes "stream exceeds target limit"))
        (λ _. abort_owner_stream id r) (search connection_rules) (λ _. Keeps-abort_owner_stream r h)

  Keeps-queue_chunk :
      (r : OwnerIncrStreamState) (payload : Text)
      → ((deadline : ℕ)
          → SoundStream (record r { queued_chunk = some payload; deadline = deadline }))
      → Here (queue_chunk id r payload)
  unfolding queue_chunk
  Keeps-queue_chunk r payload h = search (connection_rules, h)

  Keeps-write_to_stream :
      (payload : Text) (r : OwnerIncrStreamState)
      → SoundStream r
      → Here (write_to_stream id payload r)
  unfolding write_to_stream
  Keeps-write_to_stream payload r h =
      Keeps-if ((length payload == 0) || ltb r.chunk_size (length payload)) _ _
        (λ e. Keeps-refuse_chunk r _ _ h)
        λ size.
          Keeps-if (ltb r.max_bytes (saturating_add r.written_bytes (length payload))) _ _
            (λ e. Keeps-exceed_stream r h)
            λ room.
              Keeps-if (is_some r.queued_end) _ _ (λ e. Keeps-refuse_chunk r _ _ h)
                λ open_end.
                  Keeps-if r.ready _ _
                    (λ ready.
                      Keeps-write_owner_stream_chunk r payload (ground arith) (ground arith) h.2
                        (ground arith))
                    λ idle.
                      Keeps-if (is_some r.queued_chunk) _ _ (λ e. Keeps-refuse_chunk r _ _ h)
                        λ empty. Keeps-queue_chunk r payload (λ deadline. ground arith)

  as_owner_incr_stream-Sound :
      (p : PendingRequest) (r : OwnerIncrStreamState)
      → as_owner_incr_stream (some p) ≡ some r
      → Sound p
      → SoundStream r
  as_owner_incr_stream-Sound (owner_incr_stream q) r e h =
      subst SoundStream (some-injective q r e) h
  as_owner_incr_stream-Sound p r e h = cc

  pub Keeps-write_request_stream :
      (payload : Text) → Keeps (λ next. Unit {0}) (write_request_stream id payload)
  unfolding write_request_stream
  Keeps-write_request_stream payload =
      Keeps-take id as_owner_incr_stream _ (write_to_stream id payload) SoundStream refl
        as_owner_incr_stream-Sound (search connection_rules) (Keeps-write_to_stream payload)

  drop_chunk-Bounded :
      (status : Status) (r : OwnerIncrStreamState) (deadline : ℕ)
      → SoundStream r
      → Bounded
          (record (drop_chunk_unless_ok status r) { queued_end = some status; deadline = deadline })
  unfolding drop_chunk_unless_ok
  drop_chunk-Bounded status r deadline h = ground arith

  Keeps-end_stream :
      (status : Status) (r : OwnerIncrStreamState) → SoundStream r → Here (end_stream id status r)
  unfolding end_stream
  Keeps-end_stream status r h =
      search
        (
          connection_rules,
          Keeps-advance_owner_stream,
          λ (deadline : ℕ). drop_chunk-Bounded status r deadline h,
        )
        depth 8

  pub Keeps-end_request_stream :
      (status : Status) → Keeps (λ next. Unit {0}) (end_request_stream id status)
  unfolding end_request_stream
  Keeps-end_request_stream status =
      Keeps-take id as_owner_incr_stream _ (end_stream id status) SoundStream refl
        as_owner_incr_stream-Sound (search connection_rules) (Keeps-end_stream status)

  Keeps-ready_stream :
      (r : OwnerIncrStreamState)
      → SoundStream r
      → Here (do
        deadline ← owner_request_deadline
        advance_owner_stream id (record r { ready = true; deadline = deadline }))
  Keeps-ready_stream r h =
      Keeps-bind _ _ Keeps-owner_request_deadline
        λ deadline. Keeps-advance_owner_stream _ (h.0, h.1, h.2)

  pub Keeps-mark_owner_stream_ready : Keeps (λ next. Unit {0}) (mark_owner_stream_ready id)
  unfolding mark_owner_stream_ready
  Keeps-mark_owner_stream_ready =
      Keeps-take id as_owner_incr_stream _ _ SoundStream refl as_owner_incr_stream-Sound
        (Keeps-pure tt) Keeps-ready_stream

  -- which of the owner's data to stream is for the host to say: any will do
  Keeps-begin : (estimated_bytes : ℕ) (r : OwnerData) → Here (begin_stream id estimated_bytes r)
  unfolding begin_stream
  Keeps-begin estimated_bytes r =
      Keeps-if _ _ _ (λ e. Keeps-refuse_stream r) (λ e. Keeps-open_stream estimated_bytes r)

  pub Keeps-begin_request_stream :
      (estimated_bytes : ℕ) → Keeps (λ next. Unit {0}) (begin_request_stream id estimated_bytes)
  unfolding begin_request_stream
  Keeps-begin_request_stream estimated_bytes =
      Keeps-take id as_owner_data _ (begin_stream id estimated_bytes) (λ r. Unit {0}) refl
        (λ p r e h. tt) (search connection_rules) (λ r h. Keeps-begin estimated_bytes r)
