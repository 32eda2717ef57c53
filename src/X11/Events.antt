-- ===== src/X11/Events.antt =====
-- The dispatch of X11 events, and the timeouts.
use clipbus.Base.{
  ℕ, ◌∷◌, [], List, Option, none, some, Bool, true, false, ◌&&◌, Table, lookup, leb, ◌==◌,
  if◌then◌else◌, not,
}
use clipbus.Text.{bytes}
use clipbus.Status.{Status}
use clipbus.Clipboard.Notify.{notify_error, notify_owner_lost, notify_targets_changed}
use clipbus.Trace.{Act, Atom, Window}
use clipbus.X11.State.{
  SelectionRequestEvent, PendingRequest, owner_data, external_targets, external_data,
  external_incr_data, owner_incr_data, owner_incr_stream, deadline,
}
use clipbus.X11.Server.{World}
use clipbus.X11.Monad.{
  M, Done, pure, gets, ◌>>=◌, ◌>>◌, attempt, now, set_pending, set_published, remove_pending,
}
use clipbus.X11.Connection.{none_atom, notify, fail_selection_request}
use clipbus.X11.Owner.{handle_selection_request}
use clipbus.X11.Incr.{send_next_owner_incr_chunk}
use clipbus.X11.Stream.{mark_owner_stream_ready}
use clipbus.X11.External.{
  complete_external_targets, complete_external_data, read_external_incr_chunk,
  notify_external_pending_failure,
}

-- The fields of x11rb's events that the backend reads.
pub record SelectionNotify : Type 0 where
  pub selection : Atom
  pub target : Atom
  pub property : Atom

-- `is_new_value` and `is_delete` are the two states that the source compares with.
pub data PropertyState : Type 0 where
  new_value delete : PropertyState

pub record PropertyNotify : Type 0 where
  pub window : Window
  pub atom : Atom
  pub state : PropertyState

pub record XfixesSelectionNotify : Type 0 where
  pub selection : Atom
  pub owner : Window

pub data Event : Type 0 where
  selection_request : SelectionRequestEvent → Event
  selection_notify : SelectionNotify → Event
  property_notify : PropertyNotify → Event
  xfixes_selection_notify : XfixesSelectionNotify → Event
  selection_clear : Event
  other : Event

abbrev is_none : Atom → Bool
is_none a = a == none_atom

abbrev answers : Atom → Atom → SelectionNotify → Bool
answers target property event =
    (event.target == target)
    && (if event.property == property then true else is_none event.property)

-- PendingRequest::matches_selection_notify
unfoldable pub matches_selection_notify : PendingRequest → SelectionNotify → Atom → Bool
matches_selection_notify (external_targets r) event targets_atom =
    answers targets_atom r.property event
matches_selection_notify (external_data r) event targets_atom =
    answers r.target_atom r.property event
matches_selection_notify _ event targets_atom = false

-- iter().find_map(..) over the entries in the order of the walk: the key of the first that passes
unfoldable pub find_key : (PendingRequest → Bool) → Table PendingRequest → Option ℕ
find_key test [] = none
find_key test ((k, v) ∷ m) = if test v then some k else find_key test m

unfoldable pub reads_incr : Atom → PendingRequest → Bool
reads_incr atom (external_incr_data r) = r.property == atom
reads_incr atom _ = false

unfoldable pub sends_incr : Window → Atom → PendingRequest → Bool
sends_incr window atom (owner_incr_data r) = (r.requestor == window) && (r.property == atom)
sends_incr window atom (owner_incr_stream r) = (r.requestor == window) && (r.property == atom)
sends_incr window atom _ = false

abbrev pub is_delete : PropertyState → Bool
is_delete new_value = false
is_delete delete = true

module _ ⦃w : World⦄ where
  abbrev pub find_pending : {E : Type 0} → (PendingRequest → Bool) → M E (Option ℕ)
  find_pending test = gets (λ s. find_key test (w.pending_order s.trace s.pending))

  unfoldable pub complete_external : ℕ → PendingRequest → Done
  unfolding complete_external_targets complete_external_data pure
  complete_external request_id (external_targets r) =
      complete_external_targets request_id r.property
  complete_external request_id (external_data r) =
      complete_external_data request_id r.property r.native_target r.max_bytes
  complete_external request_id _ = pure tt

  unfoldable pub settle_notified : ℕ → Atom → Option PendingRequest → Done
  unfolding notify_external_pending_failure complete_external
  settle_notified request_id property none = pure tt
  settle_notified request_id property (some pending) =
      if is_none property
      then notify_external_pending_failure request_id pending Status.unsupported
      else complete_external request_id pending

  unfoldable pub settle_one : ℕ → Atom → Done
  unfolding remove_pending settle_notified ◌>>=◌
  settle_one request_id property = do
    removed ← remove_pending request_id
    settle_notified request_id property removed

  -- let Some(request_id) = .. else { return Ok(()) }
  unfoldable pub for_found : Option ℕ → (ℕ → Done) → Done
  unfolding pure
  for_found none act = pure tt
  for_found (some request_id) act = act request_id

  unfoldable pub handle_matching_notify : SelectionNotify → Done
  unfolding find_key matches_selection_notify settle_one for_found ◌>>=◌
  handle_matching_notify event = do
    targets ← gets (λ s. s.atoms.targets)
    found ← find_pending (λ p. matches_selection_notify p event targets)
    for_found found λ request_id. settle_one request_id event.property

  unfoldable pub handle_selection_notify : SelectionNotify → Done
  unfolding handle_matching_notify
  handle_selection_notify event = do
    clipboard ← gets (λ s. s.atoms.clipboard)
    if event.selection == clipboard then handle_matching_notify event else pure tt

  unfoldable pub advance_found : ℕ → Option PendingRequest → Done
  unfolding send_next_owner_incr_chunk mark_owner_stream_ready pure
  advance_found request_id (some (owner_incr_data _)) = send_next_owner_incr_chunk request_id
  advance_found request_id (some (owner_incr_stream _)) = mark_owner_stream_ready request_id
  advance_found request_id _ = pure tt

  unfoldable pub advance_owner_incr_request : ℕ → Done
  unfolding advance_found ◌>>=◌
  advance_owner_incr_request request_id = do
    found ← gets (λ s. lookup request_id s.pending)
    advance_found request_id found

  unfoldable pub handle_property_deleted : PropertyNotify → Done
  unfolding find_key sends_incr advance_owner_incr_request for_found ◌>>=◌
  handle_property_deleted event = do
    found ← find_pending (sends_incr event.window event.atom)
    for_found (if is_delete event.state then found else none) advance_owner_incr_request

  -- a chunk for an INCR read of ours, or else perhaps a deletion
  unfoldable pub read_or_advance : PropertyNotify → Option ℕ → Done
  unfolding read_external_incr_chunk handle_property_deleted
  read_or_advance event none = handle_property_deleted event
  read_or_advance event (some request_id) = read_external_incr_chunk request_id

  unfoldable pub handle_property_notify : PropertyNotify → Done
  unfolding find_key reads_incr read_or_advance ◌>>=◌
  handle_property_notify event = do
    window ← gets (λ s. s.window)
    found ← find_pending (reads_incr event.atom)
    read_or_advance event
        (if (event.window == window) && not (is_delete event.state) then found else none)

  unfoldable pub handle_xfixes_selection_notify : XfixesSelectionNotify → Done
  unfolding notify ◌>>=◌
  handle_xfixes_selection_notify event = do
    window ← gets (λ s. s.window)
    clipboard ← gets (λ s. s.atoms.clipboard)
    if (event.selection == clipboard) && not (event.owner == window)
        then notify notify_targets_changed
        else pure tt

  unfoldable pub lose_selection : Done
  unfolding set_published set_pending notify ◌>>=◌
  lose_selection = do set_published (λ _. []); set_pending (λ _. []); notify notify_owner_lost

  unfoldable pub handle_event : Event → Done
  unfolding handle_selection_request handle_selection_notify handle_property_notify
      handle_xfixes_selection_notify lose_selection
  handle_event (selection_request event) = handle_selection_request event
  handle_event (selection_notify event) = handle_selection_notify event
  handle_event (property_notify event) = handle_property_notify event
  handle_event (xfixes_selection_notify event) = handle_xfixes_selection_notify event
  handle_event selection_clear = lose_selection
  handle_event other = pure tt

  -- the ids whose deadline has passed, in the order of the walk
  unfoldable pub expired : ℕ → Table PendingRequest → List ℕ
  unfolding deadline
  expired t [] = []
  expired t ((k, v) ∷ m) = if leb (deadline v) t then k ∷ expired t m else expired t m

  -- let _ = write the terminator; let _ = flush()
  unfoldable pub terminate_incr : Window → Atom → Atom → Done
  unfolding attempt ◌>>=◌
  terminate_incr requestor property target_atom = do
    attempt (Act.change_property8 requestor property target_atom [])
    attempt Act.flush

  unfoldable pub fail_expired : ℕ → PendingRequest → Done
  unfolding fail_selection_request terminate_incr notify_external_pending_failure
  fail_expired request_id (owner_data r) = fail_selection_request r.event
  fail_expired request_id (owner_incr_data r) = terminate_incr r.requestor r.property r.target_atom
  fail_expired request_id (owner_incr_stream r) =
      terminate_incr r.requestor r.property r.target_atom
  fail_expired request_id pending =
      notify_external_pending_failure request_id pending Status.timeout

  unfoldable pub expire_removed : ℕ → Option PendingRequest → Done
  unfolding notify fail_expired ◌>>=◌
  expire_removed request_id none = pure tt
  expire_removed request_id (some pending) = do
    notify λ cb. notify_error cb Status.timeout (bytes "selection request timed out")
    fail_expired request_id pending

  unfoldable pub expire_one : ℕ → Done
  unfolding remove_pending expire_removed ◌>>=◌
  expire_one request_id = do removed ← remove_pending request_id; expire_removed request_id removed

  unfoldable pub expire_each : List ℕ → Done
  unfolding expire_one ◌>>=◌
  expire_each [] = pure tt
  expire_each (request_id ∷ ids) = expire_one request_id >> expire_each ids

  unfoldable pub expire_pending : Done
  unfolding now expired expire_each
  expire_pending = do
    t ← now
    ids ← gets (λ s. expired t (w.pending_order s.trace s.pending))
    expire_each ids
