-- ===== src/X11/Sound/Loop.antt =====
-- The invariant under the commands, the event loop and the whole run of the thread.
use clipbus.Base.{ℕ, ◌≤◌, List, [], ◌∷◌, Result, ok, err, length, arith}
use clipbus.Text.{Text}
use clipbus.Clipboard.{
  Command, Options, Callbacks, publish_targets, clear, complete_request, begin_request_stream,
  write_request_stream, end_request_stream, request_targets, request_target_data, stop,
}
use clipbus.Trace.{Act, Atom, Window}
use clipbus.X11.State.{X11State, Atoms}
use clipbus.X11.Server.{World}
use clipbus.X11.Monad.{Done, M, pure, catch}
use clipbus.X11.Connection.{max_change_property_payload_bytes}
use clipbus.X11.External.{Requested}
use clipbus.X11.Owner
use clipbus.X11.Loop.{
  Received, Polled, Progress, LoopState, command, empty, event, poll_error, reply_with, run_command,
  drain_commands, poll_events, loop_round, after_commands, event_loop, continue, stop_loop,
  finished, still_running,
}
use clipbus.X11.Run.{
  unconnected, select_xfixes_clipboard_events, set_owner_window_name, intern_atoms, try_xfixes,
  connect_state, open_window, setup_from, warn_on_err, report_failure, run_x11, run,
}
use clipbus.X11.Events.{Event, handle_event, expire_pending}
use clipbus.X11.Sound.Invariant.{IsSound}
use clipbus.X11.Sound.Rules.{
  Keeps, Keeps-pure, Keeps-bind, Keeps-throw, Keeps-record_acts, Keeps-catch, Keeps-submit,
}
use clipbus.X11.Sound.Connection.{connection_rules}
use clipbus.X11.Sound.Owner.{Keeps-publish_targets, Keeps-clear_selection, Keeps-complete_request}
use clipbus.X11.Sound.Stream.{
  Keeps-begin_request_stream, Keeps-write_request_stream, Keeps-end_request_stream,
}
use clipbus.X11.Sound.External.{Keeps-request_external_targets, Keeps-request_external_target_data}
use clipbus.X11.Sound.Events.{Always, Keeps-handle_event, Keeps-expire_pending}

module _ ⦃w : World⦄ where
  Keeps-reply_with :
      (channel : ℕ) (request : Requested)
      → Keeps Always request
      → Keeps Always (reply_with channel request)
  unfolding reply_with
  Keeps-reply_with channel request k =
      Keeps-bind (catch request) _ (Keeps-catch request k)
        λ r. Keeps-record_acts (Act.send_reply channel r ∷ []) (tt, tt)

  pub Keeps-run_command : (c : Command) → Keeps Always (run_command c)
  unfolding run_command
  Keeps-run_command (publish_targets targets) = Keeps-publish_targets targets
  Keeps-run_command clear = Keeps-clear_selection
  Keeps-run_command (complete_request id status payload) = Keeps-complete_request id status payload
  Keeps-run_command (begin_request_stream id estimated) = Keeps-begin_request_stream id estimated
  Keeps-run_command (write_request_stream id payload) = Keeps-write_request_stream id payload
  Keeps-run_command (end_request_stream id status) = Keeps-end_request_stream id status
  Keeps-run_command (request_targets reply) =
      Keeps-reply_with reply _ Keeps-request_external_targets
  Keeps-run_command (request_target_data target max_bytes reply) =
      Keeps-reply_with reply _ (Keeps-request_external_target_data target max_bytes)
  Keeps-run_command stop = Keeps-pure tt

  Keeps-drain_commands : (received : List Received) → Keeps Always (drain_commands received)
  unfolding drain_commands
  Keeps-drain_commands [] = Keeps-pure (stop_loop, [])
  Keeps-drain_commands (empty ∷ rest) = Keeps-pure (continue, rest)
  Keeps-drain_commands (command stop ∷ rest) = Keeps-pure (stop_loop, rest)
  Keeps-drain_commands (command c ∷ rest) =
      Keeps-bind (run_command c) (λ _. drain_commands rest) (Keeps-run_command c)
        (λ _. Keeps-drain_commands rest)

  Keeps-poll_events : (polled : List Polled) → Keeps Always (poll_events polled)
  unfolding poll_events
  Keeps-poll_events [] = Keeps-pure tt
  Keeps-poll_events (event e ∷ rest) =
      Keeps-bind (handle_event e) (λ _. poll_events rest) (Keeps-handle_event e)
        (λ _. Keeps-poll_events rest)
  Keeps-poll_events (poll_error e ∷ rest) = Keeps-throw _

  Keeps-loop_round : (polled : List Polled) → Keeps Always (loop_round polled)
  unfolding loop_round
  Keeps-loop_round polled =
      search (connection_rules, Keeps-poll_events, Keeps-expire_pending, Keeps-record_acts)

  Keeps-after_commands :
      (round : Done) (next : M Text Progress) (state : LoopState)
      → Keeps Always round
      → Keeps Always next
      → Keeps Always (after_commands round next state)
  Keeps-after_commands round next continue k l = Keeps-bind round (λ _. next) k (λ _. l)
  Keeps-after_commands round next stop_loop k l =
      Keeps-bind Owner.clear_selection (λ _. pure finished) Keeps-clear_selection
        (λ _. Keeps-pure finished)

  pub Keeps-event_loop :
      (rounds : List (List Polled)) (received : List Received)
      → Keeps Always (event_loop rounds received)
  unfolding event_loop
  Keeps-event_loop [] received =
      Keeps-bind (drain_commands received) _ (Keeps-drain_commands received) λ drained.
        Keeps-after_commands (pure tt) (pure still_running) drained.0 (Keeps-pure tt)
          (Keeps-pure still_running)
  Keeps-event_loop (polled ∷ rounds) received =
      Keeps-bind (drain_commands received) _ (Keeps-drain_commands received) λ drained.
        Keeps-after_commands (loop_round polled) (event_loop rounds drained.1) drained.0
          (Keeps-loop_round polled) (Keeps-event_loop rounds drained.1)

  Keeps-set_owner_window_name :
      (window : Window) (atoms : Atoms) (name : Text)
      → length name ≤ max_change_property_payload_bytes
      → Keeps Always (set_owner_window_name window atoms name)
  unfolding set_owner_window_name
  Keeps-set_owner_window_name window atoms name h = search (connection_rules, h)

  Keeps-intern_atoms : Keeps Always intern_atoms
  unfolding intern_atoms
  Keeps-intern_atoms = search connection_rules depth 20

  Keeps-select_xfixes :
      (window : Window) (clipboard : Atom)
      → Keeps Always (select_xfixes_clipboard_events window clipboard)
  unfolding select_xfixes_clipboard_events
  Keeps-select_xfixes window clipboard = search connection_rules

  Keeps-warn_on_err : (r : Result Text (Unit {0})) → Keeps Always (warn_on_err r)
  Keeps-warn_on_err (ok _) = search connection_rules
  Keeps-warn_on_err (err e) = search connection_rules

  Keeps-try_xfixes :
      (window : Window) (clipboard : Atom) → Keeps Always (try_xfixes window clipboard)
  unfolding try_xfixes
  Keeps-try_xfixes window clipboard =
      search (connection_rules, Keeps-select_xfixes, Keeps-warn_on_err)

  -- The window and the atoms are not part of the invariant.
  Keeps-connect_state :
      {E : Type 0} (window : Window) (atoms : Atoms)
      → Keeps Always (connect_state {E = E} window atoms)
  unfolding connect_state
  Keeps-connect_state window atoms = record {
    at = λ s h. (
      record {
        next_pos = h.0.next_pos;
        next_le = h.0.next_le;
        entries = h.0.entries;
        acts = h.0.acts;
      },
      tt,
    );
  }

  module _ (o : Options) (h : length o.owner_window_name ≤ max_change_property_payload_bytes) where
    Keeps-open_window : (root window : Window) → Keeps Always (open_window o root window)
    unfolding open_window
    Keeps-open_window root window =
        Keeps-bind _ _ (Keeps-submit "failed to create hidden X11 window" _ tt) λ _.
          Keeps-bind intern_atoms _ Keeps-intern_atoms λ atoms.
            Keeps-bind (set_owner_window_name window atoms o.owner_window_name) _
              (Keeps-set_owner_window_name window atoms o.owner_window_name h)
              λ _.
                Keeps-bind (try_xfixes window atoms.clipboard) _
                  (Keeps-try_xfixes window atoms.clipboard)
                  λ _.
                    Keeps-bind _ (λ _. connect_state window atoms)
                      (Keeps-submit "failed to initialize X11 clipboard window" _ tt)
                      (λ _. Keeps-connect_state window atoms)

    Keeps-setup_from : Keeps Always (setup_from o)
    unfolding setup_from
    Keeps-setup_from = search (connection_rules, Keeps-open_window)

    Keeps-run_x11 :
        (rounds : List (List Polled)) (received : List Received)
        → Keeps Always (run_x11 o rounds received)
    unfolding run_x11
    Keeps-run_x11 rounds received =
        Keeps-bind (setup_from o) (λ _. event_loop rounds received) Keeps-setup_from
          (λ _. Keeps-event_loop rounds received)

  Keeps-report_failure : (r : Result Text Progress) → Keeps Always (report_failure r)
  Keeps-report_failure (ok p) = Keeps-pure p
  Keeps-report_failure (err e) = search connection_rules

  IsSound-unconnected : (callbacks : Callbacks) (o : Options) → IsSound (unconnected callbacks o)
  unfolding unconnected
  IsSound-unconnected callbacks o = record {
    next_pos = omega arith;
    next_le = omega arith;
    entries = tt;
    acts = tt;
  }

  -- For every X server, host, clock and schedule of commands and events: if the owner window's name
  -- fits in one property, then after a run of the thread the state is sound. The next id is at least
  -- 1 and at most u64::MAX; each pending request has an id that the counter has given out; what an
  -- INCR read has gathered is at most its limit; an INCR transfer's offset is inside its payload;
  -- what a stream has written and queued is at most its limit, its queued chunk is at most a chunk,
  -- and a ready stream has nothing queued; no 8-bit property write of the whole run was longer than
  -- the connection takes; no property was read with a length over u32::MAX; and each time the host
  -- was asked for a chunk of a stream, it was asked for one of the chunk size of the connection.
  pub run-IsSound :
      (o : Options) (callbacks : Callbacks) (rounds : List (List Polled)) (received : List Received)
      → length o.owner_window_name ≤ max_change_property_payload_bytes
      → IsSound (run o callbacks rounds received).1
  unfolding run
  run-IsSound o callbacks rounds received h =
      let k =
        (Keeps-run_x11 o h rounds received).at (unconnected callbacks o)
          (IsSound-unconnected callbacks o, tt) in
      ((Keeps-report_failure (run_x11 o rounds received (unconnected callbacks o)).0).at _ k).0

  -- One event of any kind keeps a sound state sound.
  pub handle_event-IsSound : (e : Event) (s : X11State) → IsSound s → IsSound (handle_event e s).1
  handle_event-IsSound e s h = ((Keeps-handle_event e).at s (h, tt)).0

  -- One command of any kind keeps a sound state sound.
  pub run_command-IsSound : (c : Command) (s : X11State) → IsSound s → IsSound (run_command c s).1
  run_command-IsSound c s h = ((Keeps-run_command c).at s (h, tt)).0

  -- The timeouts keep a sound state sound.
  pub expire_pending-IsSound : (s : X11State) → IsSound s → IsSound (expire_pending s).1
  expire_pending-IsSound s h = (Keeps-expire_pending.at s (h, tt)).0
