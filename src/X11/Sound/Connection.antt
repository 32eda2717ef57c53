-- ===== src/X11/Sound/Connection.antt =====
-- The invariant under the small methods of X11/Connection.antt and the calls of the host.
use clipbus.Base.{ℕ, ◌≤◌, ◌≡◌, List, String, arith, u64_max, Entries-imp}
use clipbus.Text.{Text}
use clipbus.Status.{Status}
use clipbus.Clipboard.{Callbacks}
use clipbus.Clipboard.Notify.{
  notify_error, notify_target_list, notify_target_data, notify_stream_ready, notify_owner_lost,
  notify_targets_changed,
}
use clipbus.Trace.{Atom}
use clipbus.X11.State.{X11State, SelectionRequestEvent, PendingRequest}
use clipbus.X11.Server.{World}
use clipbus.X11.Monad.{M, ◌>>=◌}
use clipbus.X11.Connection.{
  intern, request_property_atom, atom_name, get_selection_owner, owner_request_deadline,
  send_selection_notify, fail_selection_request, request_target, incr_chunk_size,
  allocate_request_id, next_id,
}
use clipbus.X11.Sound.Invariant.{Issued, AllActs, Fits, Good, IsSound}
use clipbus.X11.Sound.Rules.{Keeps, keeps_rules, Keeps-bind, Keeps-submit}

module _ ⦃w : World⦄ {K : ℕ → Type 0} where
  pub Keeps-intern : (name : Text) → Keeps K (intern name)
  unfolding intern
  Keeps-intern name = search keeps_rules

  pub Keeps-atom_name : (a : Atom) → Keeps K (atom_name a)
  unfolding atom_name
  Keeps-atom_name a = search keeps_rules

  pub Keeps-get_selection_owner : Keeps K get_selection_owner
  unfolding get_selection_owner
  Keeps-get_selection_owner = search keeps_rules

  pub Keeps-owner_request_deadline : {E : Type 0} → Keeps K (owner_request_deadline {E = E})
  unfolding owner_request_deadline
  Keeps-owner_request_deadline = search keeps_rules

  pub Keeps-send_selection_notify :
      (event : SelectionRequestEvent) (property : Atom)
      → Keeps K (send_selection_notify event property)
  unfolding send_selection_notify
  Keeps-send_selection_notify event property = search keeps_rules

  pub Keeps-fail_selection_request :
      (event : SelectionRequestEvent) → Keeps K (fail_selection_request event)
  unfolding fail_selection_request
  Keeps-fail_selection_request event = search (keeps_rules, Keeps-send_selection_notify)

  pub Keeps-request_property_atom :
      (id : ℕ) (prefix : String) → Keeps K (request_property_atom id prefix)
  unfolding request_property_atom
  Keeps-request_property_atom id prefix = search (keeps_rules, Keeps-intern)

  pub Keeps-request_target :
      {E : Type 0} (id : ℕ) (name : Text) (max timeout : ℕ)
      → Keeps K (request_target {E = E} id name max timeout)
  unfolding request_target
  Keeps-request_target id name max timeout = record { at = λ s h. ground arith }

module _ ⦃w : World⦄ (cb : Callbacks) where
  pub notify_error-Fits :
      (status : Status) (message : Text) → AllActs Fits (notify_error cb status message)
  unfolding notify_error
  notify_error-Fits status message = ground arith

  pub notify_target_list-Fits :
      (id : ℕ) (status : Status) (targets : List Text)
      → AllActs Fits (notify_target_list cb id status targets)
  unfolding notify_target_list
  notify_target_list-Fits id status targets = ground arith

  pub notify_target_data-Fits :
      (id : ℕ) (target : Text) (status : Status) (payload : Text)
      → AllActs Fits (notify_target_data cb id target status payload)
  unfolding notify_target_data
  notify_target_data-Fits id target status payload = ground arith

  pub notify_stream_ready-Fits :
      (id : ℕ) (target : Text) (max_chunk timeout : ℕ)
      → max_chunk ≡ incr_chunk_size
      → AllActs Fits (notify_stream_ready cb id target max_chunk timeout)
  unfolding notify_stream_ready
  notify_stream_ready-Fits id target max_chunk timeout h = ground arith

  pub notify_owner_lost-Fits : AllActs Fits (notify_owner_lost cb)
  unfolding notify_owner_lost
  notify_owner_lost-Fits = ground arith

  pub notify_targets_changed-Fits : AllActs Fits (notify_targets_changed cb)
  unfolding notify_targets_changed
  notify_targets_changed-Fits = ground arith

pub ruleset connection_rules = (
  keeps_rules, Keeps-intern, Keeps-atom_name, Keeps-get_selection_owner,
  Keeps-owner_request_deadline, Keeps-send_selection_notify, Keeps-fail_selection_request,
  Keeps-request_property_atom, Keeps-request_target, notify_error-Fits, notify_target_list-Fits,
  notify_target_data-Fits, notify_stream_ready-Fits, notify_owner_lost-Fits,
  notify_targets_changed-Fits,
)

module _ ⦃w : World⦄ where
  Good-mono :
      (next next' id : ℕ) (p : PendingRequest)
      → next ≤ next'
      → next' ≤ u64_max
      → Good next id p
      → Good next' id p
  Good-mono next next' id p h h' g = (omega (arith, g.0), g.1)

  pub IsSound-next : (s : X11State) → IsSound s → IsSound (next_id s)
  IsSound-next s h = record {
    next_pos = omega arith;
    next_le = omega (arith, h.next_le);
    entries =
        Entries-imp (Good s.next_request_id) (Good (next_id s).next_request_id) s.pending
          (λ id p g. Good-mono _ _ id p (omega (arith, h.next_le)) (omega (arith, h.next_le)) g)
          h.entries;
    acts = h.acts;
  }

  -- An allocation gives out an id, for the rest of the action to use.
  pub Keeps-allocate :
      {E A : Type 0} (f : ℕ → M E A)
      → ((id : ℕ) → Keeps (λ next. Issued next id) (f id))
      → Keeps (λ next. Unit {0}) (allocate_request_id >>= f)
  unfolding allocate_request_id ◌>>=◌
  Keeps-allocate f kf = record {
    at = λ s h.
        let k = (kf s.next_request_id).at (next_id s) (IsSound-next s h.0, ground arith) in
        (k.0, tt);
  }
