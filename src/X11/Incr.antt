-- ===== src/X11/Incr.antt =====
-- The owner's INCR transfer of data that the host gave whole.
use clipbus.Base.{
  ℕ, ◌-◌, ◌∷◌, [], Option, none, some, min, length, take, drop, u32_max, saturating_add,
}
use clipbus.Text.{Text}
use clipbus.Trace.{Act}
use clipbus.X11.State.{
  SelectionRequestEvent, PublishedTarget, PendingRequest, OwnerData, OwnerIncrData,
  OwnerIncrStreamState, owner_data, owner_incr_data, owner_incr_stream,
}
use clipbus.X11.Server.{World}
use clipbus.X11.Monad.{Done, pure, gets, ◌>>=◌, ◌>>◌, submit, insert_pending, remove_pending}
use clipbus.X11.Connection.{
  response_property, incr_chunk_size, owner_request_deadline, send_selection_notify,
}

-- `let Some(PendingRequest::..) = .. else`: the entry, if it is of that variant
abbrev pub as_owner_data : Option PendingRequest → Option OwnerData
as_owner_data (some (owner_data r)) = some r
as_owner_data _ = none

abbrev pub as_owner_incr_data : Option PendingRequest → Option OwnerIncrData
as_owner_incr_data (some (owner_incr_data r)) = some r
as_owner_incr_data _ = none

abbrev pub as_owner_incr_stream : Option PendingRequest → Option OwnerIncrStreamState
as_owner_incr_stream (some (owner_incr_stream r)) = some r
as_owner_incr_stream _ = none

-- data[offset..end]
abbrev pub slice : Text → ℕ → ℕ → Text
slice payload from to = take (to - from) (drop from payload)

module _ ⦃w : World⦄ where
  unfoldable pub begin_owner_incr_request :
      ℕ → SelectionRequestEvent → PublishedTarget → Text → Done
  unfolding submit send_selection_notify response_property owner_request_deadline insert_pending
      ◌>>=◌
  begin_owner_incr_request request_id event target payload = do
    submit "failed to subscribe to INCR requestor property events"
        (Act.change_window_attributes event.requestor)
    incr ← gets (λ s. s.atoms.incr)
    submit "failed to write INCR header" (
        Act.change_property32 event.requestor (response_property event) incr
          (min (length payload) u32_max ∷ []))
    send_selection_notify event (response_property event)
    deadline ← owner_request_deadline
    insert_pending request_id (
        owner_incr_data (record {
          requestor = event.requestor;
          property = response_property event;
          target_atom = target.atom;
          payload = payload;
          offset = 0;
          chunk_size = incr_chunk_size;
          deadline = deadline;
        }))

  abbrev pub chunk_end : OwnerIncrData → ℕ
  chunk_end r = min (saturating_add r.offset r.chunk_size) (length r.payload)

  abbrev pub next_chunk : OwnerIncrData → Text
  next_chunk r = slice r.payload r.offset (chunk_end r)

  -- the transfer goes on after a chunk that is not empty
  unfoldable pub keep_sending : ℕ → OwnerIncrData → Text → Done
  unfolding insert_pending pure
  keep_sending request_id r [] = pure tt
  keep_sending request_id r (b ∷ bs) =
      insert_pending request_id (owner_incr_data (record r { offset = chunk_end r }))

  unfoldable pub send_chunk : ℕ → OwnerIncrData → Done
  unfolding submit keep_sending ◌>>=◌
  send_chunk request_id r = do
    submit "failed to write INCR data chunk"
        (Act.change_property8 r.requestor r.property r.target_atom (next_chunk r))
    submit "failed to flush INCR data chunk" Act.flush
    keep_sending request_id r (next_chunk r)

  unfoldable pub send_next_owner_incr_chunk : ℕ → Done
  unfolding remove_pending send_chunk ◌>>=◌
  send_next_owner_incr_chunk request_id = do
    removed ← remove_pending request_id
    elim (as_owner_incr_data removed) [ none ↦ pure tt | some r ↦ send_chunk request_id r ]
