-- ===== src/X11/Sound/Events.antt =====
-- The invariant under the dispatch of events, and the timeouts.
use Prim.Native.Nat.{zero-le}
use clipbus.Base.{ℕ, List, [], ◌∷◌, Option, none, some, ◌==◌, not, if◌then◌else◌, ◌&&◌}
use clipbus.Text.{bytes}
use clipbus.Status.{Status}
use clipbus.Trace.{Atom, Window}
use clipbus.X11.State.{
  PendingRequest, owner_data, external_targets, external_data, owner_incr_data, owner_incr_stream,
}
use clipbus.X11.Server.{World}
use clipbus.X11.Monad.{Done, gets, now, remove_pending}
use clipbus.X11.Connection.{notify}
use clipbus.Clipboard.Notify.{notify_error}
use clipbus.X11.Events.{
  expired, find_pending, matches_selection_notify, sends_incr, reads_incr, is_delete,
  SelectionNotify, PropertyNotify, Event, selection_request, selection_notify, property_notify,
  xfixes_selection_notify, selection_clear, other, complete_external, settle_notified, settle_one,
  for_found, read_or_advance, handle_matching_notify, handle_selection_notify, advance_found,
  advance_owner_incr_request, handle_property_deleted, handle_property_notify,
  handle_xfixes_selection_notify, lose_selection, handle_event, terminate_incr, fail_expired,
  expire_removed, expire_one, expire_each, expire_pending,
}
use clipbus.X11.Sound.Invariant.{Issued}
use clipbus.X11.Sound.Rules.{
  Keeps, Keeps-pure, Keeps-if, Keeps-bind, Keeps-gets, Keeps-clear_pending, Keeps-take_any,
  Keeps-now, Keeps-remove_pending,
}
use clipbus.X11.Sound.Connection.{connection_rules}
use clipbus.X11.Sound.Owner.{Keeps-handle_selection_request}
use clipbus.X11.Sound.Incr.{Keeps-send_next_owner_incr_chunk}
use clipbus.X11.Sound.Stream.{Keeps-mark_owner_stream_ready}
use clipbus.X11.Sound.External.{
  Keeps-complete_external_targets, Keeps-complete_external_data, Keeps-read_external_incr_chunk,
  Keeps-notify_external_pending_failure,
}

abbrev pub Always : ℕ → Type 0
Always next = Unit {0}

module _ ⦃w : World⦄ where
  Keeps-complete_external :
      (id : ℕ) (p : PendingRequest) → Keeps (λ next. Issued next id) (complete_external id p)
  unfolding complete_external
  Keeps-complete_external id (external_targets r) = Keeps-complete_external_targets id r.property
  Keeps-complete_external id (external_data r) =
      Keeps-complete_external_data id r.property r.native_target r.max_bytes
  Keeps-complete_external id _ = Keeps-pure tt

  Keeps-settle_some :
      (id : ℕ) (property : Atom) (p : PendingRequest)
      → Keeps (λ next. Issued next id) (settle_notified id property (some p))
  unfolding settle_notified
  Keeps-settle_some id property p =
      Keeps-if _ _ _ (λ e. Keeps-notify_external_pending_failure id p Status.unsupported)
        (λ e. Keeps-complete_external id p)

  Keeps-settle_one : (id : ℕ) (property : Atom) → Keeps Always (settle_one id property)
  unfolding settle_one settle_notified
  Keeps-settle_one id property =
      Keeps-take_any id (settle_notified id property) (Keeps-pure tt)
        (Keeps-settle_some id property)

  Keeps-for_found :
      (found : Option ℕ) (act : ℕ → Done)
      → ((id : ℕ) → Keeps Always (act id))
      → Keeps Always (for_found found act)
  unfolding for_found
  Keeps-for_found none act k = Keeps-pure tt
  Keeps-for_found (some id) act k = k id

  Keeps-handle_matching_notify :
      (event : SelectionNotify) → Keeps Always (handle_matching_notify event)
  unfolding handle_matching_notify
  Keeps-handle_matching_notify event =
      Keeps-bind (gets (λ s. s.atoms.targets)) _ (Keeps-gets (λ s. s.atoms.targets)) λ targets.
        Keeps-bind (find_pending (λ p. matches_selection_notify p event targets))
          (λ found. for_found found (λ id. settle_one id event.property)) (Keeps-gets _)
          λ found.
            Keeps-for_found found (λ id. settle_one id event.property)
              (λ id. Keeps-settle_one id event.property)

  Keeps-handle_selection_notify :
      (event : SelectionNotify) → Keeps Always (handle_selection_notify event)
  unfolding handle_selection_notify
  Keeps-handle_selection_notify event =
      Keeps-bind (gets (λ s. s.atoms.clipboard)) _ (Keeps-gets (λ s. s.atoms.clipboard))
        λ clipboard.
          Keeps-if (event.selection == clipboard) _ _ (λ e. Keeps-handle_matching_notify event)
            (λ e. Keeps-pure tt)

  Keeps-advance_found :
      (id : ℕ) (found : Option PendingRequest) → Keeps Always (advance_found id found)
  unfolding advance_found
  Keeps-advance_found id (some (owner_incr_data _)) = Keeps-send_next_owner_incr_chunk id
  Keeps-advance_found id (some (owner_incr_stream _)) = Keeps-mark_owner_stream_ready id
  Keeps-advance_found id _ = Keeps-pure tt

  Keeps-advance_owner_incr_request : (id : ℕ) → Keeps Always (advance_owner_incr_request id)
  unfolding advance_owner_incr_request
  Keeps-advance_owner_incr_request id = Keeps-bind _ _ (Keeps-gets _) (Keeps-advance_found id)

  Keeps-handle_property_deleted :
      (event : PropertyNotify) → Keeps Always (handle_property_deleted event)
  unfolding handle_property_deleted
  Keeps-handle_property_deleted event =
      Keeps-bind (find_pending (sends_incr event.window event.atom)) _ (Keeps-gets _) λ found.
        Keeps-for_found (if is_delete event.state then found else none) advance_owner_incr_request
          Keeps-advance_owner_incr_request

  Keeps-read_or_advance :
      (event : PropertyNotify) (found : Option ℕ) → Keeps Always (read_or_advance event found)
  unfolding read_or_advance
  Keeps-read_or_advance event none = Keeps-handle_property_deleted event
  Keeps-read_or_advance event (some id) = Keeps-read_external_incr_chunk id

  Keeps-handle_property_notify :
      (event : PropertyNotify) → Keeps Always (handle_property_notify event)
  unfolding handle_property_notify
  Keeps-handle_property_notify event =
      Keeps-bind (gets (λ s. s.window)) _ (Keeps-gets (λ s. s.window)) λ window.
        Keeps-bind (find_pending (reads_incr event.atom)) _ (Keeps-gets _) λ found.
          Keeps-read_or_advance event
            (if (event.window == window) && not (is_delete event.state) then found else none)

  Keeps-lose_selection : Keeps Always lose_selection
  unfolding lose_selection
  Keeps-lose_selection = search (connection_rules, Keeps-clear_pending) depth 8

  pub Keeps-handle_event : (event : Event) → Keeps Always (handle_event event)
  unfolding handle_event handle_xfixes_selection_notify
  Keeps-handle_event (selection_request event) = Keeps-handle_selection_request event
  Keeps-handle_event (selection_notify event) = Keeps-handle_selection_notify event
  Keeps-handle_event (property_notify event) = Keeps-handle_property_notify event
  Keeps-handle_event (xfixes_selection_notify event) = search connection_rules depth 8
  Keeps-handle_event selection_clear = Keeps-lose_selection
  Keeps-handle_event other = Keeps-pure tt

  Keeps-terminate_incr :
      (requestor : Window) (property target : Atom)
      → Keeps Always (terminate_incr requestor property target)
  unfolding terminate_incr
  Keeps-terminate_incr requestor property target = search (connection_rules, zero-le)

  Keeps-fail_expired : (id : ℕ) (p : PendingRequest) → Keeps Always (fail_expired id p)
  unfolding fail_expired
  Keeps-fail_expired id (owner_data r) = search connection_rules
  Keeps-fail_expired id (owner_incr_data r) = Keeps-terminate_incr _ _ _
  Keeps-fail_expired id (owner_incr_stream r) = Keeps-terminate_incr _ _ _
  Keeps-fail_expired id p = Keeps-notify_external_pending_failure id p Status.timeout

  Keeps-expire_removed :
      (id : ℕ) (removed : Option PendingRequest) → Keeps Always (expire_removed id removed)
  unfolding expire_removed
  Keeps-expire_removed id none = Keeps-pure tt
  Keeps-expire_removed id (some p) =
      Keeps-bind (notify λ cb. notify_error cb Status.timeout (bytes "selection request timed out"))
        (λ _. fail_expired id p) (search connection_rules) (λ _. Keeps-fail_expired id p)

  Keeps-expire_one : (id : ℕ) → Keeps Always (expire_one id)
  unfolding expire_one
  Keeps-expire_one id =
      Keeps-bind (remove_pending id) (expire_removed id) (Keeps-remove_pending id)
        (Keeps-expire_removed id)

  Keeps-expire_each : (ids : List ℕ) → Keeps Always (expire_each ids)
  unfolding expire_each
  Keeps-expire_each [] = Keeps-pure tt
  Keeps-expire_each (id ∷ ids) =
      Keeps-bind (expire_one id) (λ _. expire_each ids) (Keeps-expire_one id)
        (λ _. Keeps-expire_each ids)

  pub Keeps-expire_pending : Keeps Always expire_pending
  unfolding expire_pending
  Keeps-expire_pending = Keeps-bind now _ Keeps-now λ t.
      Keeps-bind (gets (λ s. expired t (w.pending_order s.trace s.pending))) expire_each
        (Keeps-gets _) Keeps-expire_each
