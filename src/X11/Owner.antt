-- ===== src/X11/Owner.antt =====
-- The owner's side: publishing targets, clearing the selection, answering a SelectionRequest, and
-- completing a request in one property.
use clipbus.Base.{
  ℕ, ◌∷◌, [], List, Option, none, some, insert, lookup, length, ◌==◌, if◌then◌else◌, ltb, map, not,
}
use clipbus.Text.{Text, bytes}
use clipbus.Status.{Status, is_ok}
use clipbus.Clipboard.{TargetOffer}
use clipbus.Clipboard.Notify.{notify_error}
use clipbus.Trace.{Act, Atom}
use clipbus.X11.State.{
  X11State, Atoms, SelectionRequestEvent, PublishedTarget, OwnerData, owner_data,
}
use clipbus.X11.Server.{World}
use clipbus.X11.Monad.{
  Done, pure, gets, ◌>>=◌, ◌>>◌, submit, set_pending, set_published, insert_pending, remove_pending,
}
use clipbus.X11.Connection.{
  current_time, intern, notify, allocate_request_id, response_property, current_selection_owner,
  inline_data_limit, owner_request_deadline, send_selection_notify, fail_selection_request,
  request_target,
}
use clipbus.X11.Incr.{as_owner_data, begin_owner_incr_request}

module _ ⦃w : World⦄ where
  unfoldable pub published_target : ℕ → Atom → TargetOffer → PublishedTarget
  published_target max_inline_bytes atom target = record {
    atom = atom;
    name = target.native_target;
    max_bytes = if target.max_bytes == 0 then max_inline_bytes else target.max_bytes;
  }

  unfoldable pub publish_one : TargetOffer → Done
  unfolding published_target intern set_published ◌>>=◌
  publish_one target = do
    atom ← intern target.native_target
    max_inline_bytes ← gets (λ s. s.options.max_inline_bytes)
    set_published (insert atom (published_target max_inline_bytes atom target))

  -- the loop over the offers
  unfoldable pub publish_each : List TargetOffer → Done
  unfolding publish_one ◌>>=◌
  publish_each [] = pure tt
  publish_each (target ∷ targets) = publish_one target >> publish_each targets

  unfoldable pub publish_targets : List TargetOffer → Done
  unfolding publish_each submit
  publish_targets targets = do
    set_published (λ _. [])
    publish_each targets
    window ← gets (λ s. s.window)
    clipboard ← gets (λ s. s.atoms.clipboard)
    submit "failed to own CLIPBOARD selection"
        (Act.set_selection_owner window clipboard current_time)
    submit "failed to flush CLIPBOARD ownership" Act.flush

  -- give the selection up, if it is ours
  unfoldable pub release_selection : Done
  unfolding submit ◌>>=◌
  release_selection = do
    clipboard ← gets (λ s. s.atoms.clipboard)
    submit "failed to clear CLIPBOARD selection" (Act.set_selection_owner 0 clipboard current_time)
    submit "failed to flush CLIPBOARD clear" Act.flush

  unfoldable pub clear_selection : Done
  unfolding release_selection set_published set_pending
  clear_selection = do
    set_published (λ _. [])
    set_pending (λ _. [])
    owner ← current_selection_owner
    window ← gets (λ s. s.window)
    if owner == window then release_selection else pure tt

  -- values() of the published targets, in the order of the walk
  abbrev pub published_values : X11State → List PublishedTarget
  published_values s = map (λ e. e.1) (w.published_order s.trace s.published)

  unfoldable pub respond_targets : SelectionRequestEvent → Done
  unfolding submit send_selection_notify response_property
  respond_targets event = do
    atoms ← gets (λ s. s.atoms)
    targets ← gets published_values
    submit "failed to write TARGETS property" (
        Act.change_property32 event.requestor (response_property event) atoms.atom
          (atoms.targets ∷ atoms.timestamp ∷ atoms.save_targets ∷ map (λ t. t.atom) targets))
    send_selection_notify event (response_property event)

  unfoldable pub respond_u32 : SelectionRequestEvent → Atom → ℕ → Done
  unfolding submit send_selection_notify response_property
  respond_u32 event property_type value = do
    submit "failed to write u32 selection property"
        (Act.change_property32 event.requestor (response_property event) property_type (value ∷ []))
    send_selection_notify event (response_property event)

  unfoldable pub respond_empty : SelectionRequestEvent → Done
  unfolding submit send_selection_notify response_property
  respond_empty event = do
    submit "failed to write empty selection property"
        (Act.change_property8 event.requestor (response_property event) event.target [])
    send_selection_notify event (response_property event)

  -- the match on the host's answer
  unfoldable pub after_target_request : ℕ → SelectionRequestEvent → Status → Done
  unfolding remove_pending notify fail_selection_request ◌>>=◌
  after_target_request request_id event Status.ok = pure tt
  after_target_request request_id event Status.pending = pure tt
  after_target_request request_id event status = do
    remove_pending request_id
    notify λ cb. notify_error cb status (bytes "target request callback rejected request")
    fail_selection_request event

  -- a request for a published target, under a new id: ask the host
  unfoldable pub request_as : SelectionRequestEvent → PublishedTarget → ℕ → Done
  unfolding owner_request_deadline insert_pending request_target after_target_request ◌>>=◌
  request_as event target request_id = do
    deadline ← owner_request_deadline
    insert_pending request_id
        (owner_data (record { event = event; target = target; deadline = deadline }))
    timeout ← gets (λ s. s.options.request_timeout_ms)
    status ← request_target request_id target.name target.max_bytes timeout
    after_target_request request_id event status

  unfoldable pub request_published : SelectionRequestEvent → PublishedTarget → Done
  unfolding allocate_request_id request_as ◌>>=◌
  request_published event target = do
    request_id ← allocate_request_id
    request_as event target request_id

  -- let Some(target) = published.get(..) else ..
  unfoldable pub answer_published : SelectionRequestEvent → Option PublishedTarget → Done
  unfolding request_published fail_selection_request
  answer_published event none = fail_selection_request event
  answer_published event (some target) = request_published event target

  unfoldable pub answer_request : SelectionRequestEvent → Atoms → Option PublishedTarget → Done
  unfolding respond_targets respond_u32 respond_empty answer_published fail_selection_request
  answer_request event atoms target =
      if not (event.selection == atoms.clipboard)
      then fail_selection_request event
      else if event.target == atoms.targets
      then respond_targets event
      else if event.target == atoms.timestamp
      then respond_u32 event atoms.integer current_time
      else if event.target == atoms.save_targets
      then respond_empty event
      else answer_published event target

  unfoldable pub handle_selection_request : SelectionRequestEvent → Done
  unfolding answer_request ◌>>=◌
  handle_selection_request event = do
    atoms ← gets (λ s. s.atoms)
    target ← gets (λ s. lookup event.target s.published)
    answer_request event atoms target

  -- the data as one property of the requestor's
  unfoldable pub write_inline : SelectionRequestEvent → Text → Done
  unfolding submit send_selection_notify response_property ◌>>=◌
  write_inline event payload = do
    submit "failed to write target data"
        (Act.change_property8 event.requestor (response_property event) event.target payload)
    send_selection_notify event (response_property event)

  unfoldable pub complete_owner_data : ℕ → Status → Text → OwnerData → Done
  unfolding fail_selection_request begin_owner_incr_request write_inline inline_data_limit ◌>>=◌
  complete_owner_data request_id status payload r = do
    max_inline_bytes ← gets (λ s. s.options.max_inline_bytes)
    if not (is_ok status)
        then fail_selection_request r.event
        else if ltb r.target.max_bytes (length payload)
        then fail_selection_request r.event
        else if ltb (inline_data_limit max_inline_bytes) (length payload)
        then begin_owner_incr_request request_id r.event r.target payload
        else write_inline r.event payload

  unfoldable pub complete_request : ℕ → Status → Text → Done
  unfolding remove_pending complete_owner_data ◌>>=◌
  complete_request request_id status payload = do
    removed ← remove_pending request_id
    elim (as_owner_data removed) [
      | none ↦ pure tt
      | some r ↦ complete_owner_data request_id status payload r
    ]
