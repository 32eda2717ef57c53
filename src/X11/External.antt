-- ===== src/X11/External.antt =====
-- The requestor's side: asking the current owner for its targets or for data, and reading what it
-- writes, whole or by INCR.
use clipbus.Base.{
  ℕ, ◌-◌, ◌∷◌, [], ◌++◌, List, Option, none, some, Bool, true, false, ◌&&◌, ◌||◌, not, length, map,
  Result, ok, err, ltb, ◌==◌, if◌then◌else◌,
}
use clipbus.Text.{Text, bytes}
use clipbus.Status.{Status}
use clipbus.Clipboard.{Callbacks}
use clipbus.Clipboard.Notify.{notify_target_list, notify_target_data}
use clipbus.Trace.{Act, Atom, Window, PropertyRequest}
use clipbus.X11.State.{
  PendingRequest, ExternalIncrData, owner_data, external_targets, external_data, external_incr_data,
  owner_incr_data, owner_incr_stream,
}
use clipbus.X11.Server.{World, PropertyReply}
use clipbus.X11.Monad.{
  M, Done, pure, throw, gets, ◌>>=◌, ◌>>◌, map_err, catch, submit, attempt, ask, insert_pending,
  remove_pending, send,
}
use clipbus.X11.Connection.{
  current_time, any_atom, intern, request_property_atom, atom_name, get_selection_owner, notify,
  allocate_request_id, owner_request_deadline, property_units_for_bytes,
}
use clipbus.X11.Owner.{published_values}

-- Result<u64, Status>
abbrev pub Requested : Type 0
Requested = M Status ℕ

abbrev platform_error : {E : Type 0} → E → Status
platform_error _ = Status.platform_error

abbrev pub as_external_incr_data : Option PendingRequest → Option ExternalIncrData
as_external_incr_data (some (external_incr_data r)) = some r
as_external_incr_data _ = none

module _ ⦃w : World⦄ where
  abbrev pub give_up_unless_ok : ℕ → Result Text (Unit {0}) → Requested
  give_up_unless_ok request_id (ok _) = pure request_id
  give_up_unless_ok request_id (err _) = remove_pending request_id >> throw Status.platform_error

  -- convert_selection(..).and_then(|_| flush()).is_err(), which takes the request back
  unfoldable pub convert_selection : ℕ → Atom → Atom → Requested
  unfolding send catch remove_pending ◌>>=◌
  convert_selection request_id target property = do
    window ← gets (λ s. s.window)
    clipboard ← gets (λ s. s.atoms.clipboard)
    r ← catch (
        send (Act.convert_selection window clipboard target property current_time)
        >> send Act.flush)
    give_up_unless_ok request_id r

  unfoldable pub selection_owner_or_status : M Status Window
  unfolding get_selection_owner map_err
  selection_owner_or_status = map_err platform_error get_selection_owner

  unfoldable pub ask_owner_targets : ℕ → Requested
  unfolding request_property_atom map_err owner_request_deadline insert_pending convert_selection
  ask_owner_targets request_id = do
    property ← map_err platform_error (request_property_atom request_id "CLIPBUS_TARGETS")
    deadline ← owner_request_deadline
    insert_pending request_id
        (external_targets (record { property = property; deadline = deadline }))
    targets ← gets (λ s. s.atoms.targets)
    convert_selection request_id targets property

  -- an owner's target list that is known at once
  unfoldable pub answer_targets : ℕ → Status → List Text → Requested
  unfolding notify ◌>>=◌
  answer_targets request_id status targets = do
    notify λ cb. notify_target_list cb request_id status targets
    pure request_id

  -- request_external_targets after its first line
  unfoldable pub request_targets_as : ℕ → Requested
  unfolding selection_owner_or_status answer_targets ask_owner_targets ◌>>=◌
  request_targets_as request_id = do
    owner ← selection_owner_or_status
    window ← gets (λ s. s.window)
    targets ← gets (λ s. map (λ t. t.name) (published_values s))
    if owner == 0
        then answer_targets request_id Status.not_found []
        else if owner == window
        then answer_targets request_id Status.ok targets
        else ask_owner_targets request_id

  unfoldable pub request_external_targets : Requested
  unfolding allocate_request_id request_targets_as ◌>>=◌
  request_external_targets = do request_id ← allocate_request_id; request_targets_as request_id

  unfoldable pub ask_owner_data : ℕ → Text → ℕ → Requested
  unfolding intern request_property_atom map_err owner_request_deadline insert_pending
      convert_selection
  ask_owner_data request_id native_target max_bytes = do
    target_atom ← map_err platform_error (intern native_target)
    property ← map_err platform_error (request_property_atom request_id "CLIPBUS_DATA")
    deadline ← owner_request_deadline
    insert_pending request_id (
        external_data (record {
          property = property;
          target_atom = target_atom;
          native_target = native_target;
          max_bytes = max_bytes;
          deadline = deadline;
        }))
    convert_selection request_id target_atom property

  -- there is no owner to ask
  unfoldable pub answer_no_owner : ℕ → Text → Requested
  unfolding notify ◌>>=◌
  answer_no_owner request_id native_target = do
    notify λ cb. notify_target_data cb request_id native_target Status.not_found []
    pure request_id

  -- request_external_target_data after its first line
  unfoldable pub request_data_as : Text → ℕ → ℕ → Requested
  unfolding selection_owner_or_status answer_no_owner ask_owner_data ◌>>=◌
  request_data_as native_target max_bytes request_id = do
    owner ← selection_owner_or_status
    max_inline_bytes ← gets (λ s. s.options.max_inline_bytes)
    if owner == 0
        then answer_no_owner request_id native_target
        else ask_owner_data request_id native_target
            (if max_bytes == 0 then max_inline_bytes else max_bytes)

  unfoldable pub request_external_target_data : Text → ℕ → Requested
  unfolding allocate_request_id request_data_as ◌>>=◌
  request_external_target_data native_target max_bytes = do
    request_id ← allocate_request_id
    request_data_as native_target max_bytes request_id

  abbrev pub unless_err : {A : Type 0} → Result Text A → List A → List A
  unless_err (ok a) rest = a ∷ rest
  unless_err (err _) rest = rest

  -- the names of the atoms that have one
  unfoldable pub atom_names : List Atom → M Text (List Text)
  unfolding atom_name catch ◌>>=◌
  atom_names [] = pure []
  atom_names (a ∷ atoms) = do
    r ← catch (atom_name a)
    names ← atom_names atoms
    pure (unless_err r names)

  abbrev or_empty : Option (List ℕ) → List ℕ
  or_empty none = []
  or_empty (some l) = l

  -- let _ = delete_property(..); let _ = flush()
  unfoldable pub discard_property : Atom → Done
  unfolding attempt ◌>>=◌
  discard_property property = do
    window ← gets (λ s. s.window)
    attempt (Act.delete_property window property)
    attempt Act.flush

  unfoldable pub read_property : Text → Text → Bool → Atom → Atom → ℕ → M Text PropertyReply
  unfolding ask ◌>>=◌
  read_property sending reading delete property type_ long_length = do
    window ← gets (λ s. s.window)
    let request : PropertyRequest = record {
      delete = delete;
      window = window;
      property = property;
      type_ = type_;
      long_offset = 0;
      long_length = long_length;
    }
    ask sending reading (Act.get_property request) (λ t. w.property t request)

  unfoldable pub complete_external_targets : ℕ → Atom → Done
  unfolding read_property atom_names discard_property notify
  complete_external_targets request_id property = do
    atom ← gets (λ s. s.atoms.atom)
    reply ←
        read_property (bytes "failed to request TARGETS property")
          (bytes "failed to read TARGETS property") false property atom 4096
    targets ←
        if (reply.type_ == atom) && (reply.format == 32)
        then atom_names (or_empty reply.value32)
        else pure []
    discard_property property
    notify λ cb. notify_target_list cb request_id Status.ok targets

  abbrev first_or_zero : Option (List ℕ) → ℕ
  first_or_zero (some (v ∷ _)) = v
  first_or_zero _ = 0

  -- more is announced than the host takes
  unfoldable pub reject_data : ℕ → Atom → Text → Done
  unfolding discard_property notify ◌>>=◌
  reject_data request_id property native_target = do
    discard_property property
    notify λ cb. notify_target_data cb request_id native_target Status.unsupported []

  unfoldable pub start_incr_read : ℕ → Atom → Text → ℕ → Done
  unfolding submit owner_request_deadline insert_pending ◌>>=◌
  start_incr_read request_id property native_target max_bytes = do
    window ← gets (λ s. s.window)
    submit "failed to delete INCR header property" (Act.delete_property window property)
    submit "failed to flush INCR header deletion" Act.flush
    deadline ← owner_request_deadline
    insert_pending request_id (
        external_incr_data (record {
          property = property;
          native_target = native_target;
          max_bytes = max_bytes;
          payload = [];
          deadline = deadline;
        }))

  unfoldable pub begin_external_incr_read : ℕ → Atom → Text → ℕ → Done
  unfolding read_property reject_data start_incr_read
  begin_external_incr_read request_id property native_target max_bytes = do
    incr ← gets (λ s. s.atoms.incr)
    reply ←
        read_property (bytes "failed to request INCR header") (bytes "failed to read INCR header")
          false property incr 1
    if ltb max_bytes (first_or_zero reply.value32)
        then reject_data request_id property native_target
        else start_incr_read request_id property native_target max_bytes

  -- the property was read at once: hand it over, or say that it is too long
  abbrev pub delivered : ℕ → Text → ℕ → PropertyReply → Callbacks → List Act
  delivered request_id native_target max_bytes reply cb =
      if not (reply.bytes_after == 0) || ltb max_bytes (length reply.value)
      then notify_target_data cb request_id native_target Status.unsupported []
      else notify_target_data cb request_id native_target Status.ok reply.value

  unfoldable pub deliver_data : ℕ → Atom → Text → ℕ → PropertyReply → Done
  unfolding discard_property notify ◌>>=◌
  deliver_data request_id property native_target max_bytes reply = do
    discard_property property
    notify (delivered request_id native_target max_bytes reply)

  unfoldable pub complete_external_data : ℕ → Atom → Text → ℕ → Done
  unfolding read_property property_units_for_bytes begin_external_incr_read deliver_data
  complete_external_data request_id property native_target max_bytes = do
    reply ←
        read_property (bytes "failed to request target property")
          (bytes "failed to read target property") false property any_atom
          (property_units_for_bytes max_bytes)
    incr ← gets (λ s. s.atoms.incr)
    if reply.type_ == incr
        then begin_external_incr_read request_id property native_target max_bytes
        else deliver_data request_id property native_target max_bytes reply

  -- what the requestor does with one chunk
  unfoldable pub take_incr_chunk : ℕ → ExternalIncrData → PropertyReply → Done
  unfolding attempt discard_property notify insert_pending reject_data ◌>>=◌
  take_incr_chunk request_id r reply =
      if (length reply.value == 0) && (reply.bytes_after == 0)
      then (do
        attempt Act.flush
        notify λ cb. notify_target_data cb request_id r.native_target Status.ok r.payload)
      else if not (reply.bytes_after == 0)
          || ltb (r.max_bytes - length r.payload) (length reply.value)
      then reject_data request_id r.property r.native_target
      else (do
        attempt Act.flush
        insert_pending request_id
            (external_incr_data (record r { payload = r.payload ++ reply.value })))

  unfoldable pub read_incr_chunk : ℕ → ExternalIncrData → Done
  unfolding read_property property_units_for_bytes take_incr_chunk ◌>>=◌
  read_incr_chunk request_id r = do
    reply ←
        read_property (bytes "failed to request INCR data chunk")
          (bytes "failed to read INCR data chunk") true r.property any_atom
          (property_units_for_bytes (r.max_bytes - length r.payload))
    take_incr_chunk request_id r reply

  unfoldable pub read_external_incr_chunk : ℕ → Done
  unfolding remove_pending read_incr_chunk ◌>>=◌
  read_external_incr_chunk request_id = do
    removed ← remove_pending request_id
    elim (as_external_incr_data removed) [ none ↦ pure tt | some r ↦ read_incr_chunk request_id r ]

  -- tell the host that a request of its own has failed
  unfoldable pub notify_external_pending_failure :
      {E : Type 0} → ℕ → PendingRequest → Status → M E (Unit {0})
  unfolding notify pure
  notify_external_pending_failure request_id (external_targets r) status =
      notify λ cb. notify_target_list cb request_id status []
  notify_external_pending_failure request_id (external_data r) status =
      notify λ cb. notify_target_data cb request_id r.native_target status []
  notify_external_pending_failure request_id (external_incr_data r) status =
      notify λ cb. notify_target_data cb request_id r.native_target status []
  notify_external_pending_failure request_id (owner_data r) status = pure tt
  notify_external_pending_failure request_id (owner_incr_data r) status = pure tt
  notify_external_pending_failure request_id (owner_incr_stream r) status = pure tt
