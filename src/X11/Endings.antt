-- ===== src/X11/Endings.antt =====
-- The event loop from its start to its end.
use clipbus.Base.{
  suc, ◌≤◌, ◌≡◌, ◌≢◌, ◌∷◌, [], List, Result, ok, err, Result-cases, length, arith, refl, ap, ◌∙◌,
  inl, inr,
}
use clipbus.Text.{Text}
use clipbus.Clipboard.{Callbacks, Options}
use clipbus.Status.{Status}
use clipbus.Clipboard.Notify.{notify_error}
use clipbus.Trace.{Act}
use clipbus.X11.State.{X11State}
use clipbus.X11.Server.{World}
use clipbus.X11.Monad.{M, Done, pure, record_acts, ◌>>◌, ◌>>=◌}
use clipbus.X11.Connection.{notify, get_selection_owner}
use clipbus.X11.Owner
use clipbus.X11.Loop.{
  LoopState, Received, Polled, Progress, drain_commands, event_loop, stop_loop, continue, finished,
  still_running, after_commands, loop_round,
}
use clipbus.X11.Draining.{empties, drain_commands-empties}
use clipbus.X11.Run.{run, unconnected, setup_from, run_x11, report_failure}

module _ ⦃w : World⦄ where
  -- whatever m ends with, it does not end with this
  abbrev Emptied : M Text Progress → X11State → Type 0
  Emptied m s = (m s).0 ≡ ok finished → ((m s).1.pending ≡ []) × ((m s).1.published ≡ [])

  Emptied-bind :
      {A : Type 0} (m : M Text A) (f : A → M Text Progress) (s : X11State)
      → ((a : A) (s' : X11State) → Emptied (f a) s')
      → Emptied (m >>= f) s
  unfolding ◌>>=◌
  Emptied-bind m f s h e = elim (Result-cases (m s).0) [
    | inl (a, q) ↦ ground (arith, h a (m s).1)
    | inr (a, q) ↦ ground arith
  ]

  Emptied-clear : (s : X11State) → Emptied (Owner.clear_selection >> pure finished) s
  unfolding Owner.clear_selection get_selection_owner
  Emptied-clear s e = ground arith

  Emptied-after :
      (round : Done) (next : M Text Progress) (state : LoopState) (s : X11State)
      → ((s' : X11State) → Emptied next s')
      → Emptied (after_commands round next state) s
  Emptied-after round next continue s h = Emptied-bind round (λ _. next) s λ _. h
  Emptied-after round next stop_loop s h = Emptied-clear s

  -- If the event loop ends without an error, then no request is pending and no target is published.
  pub event_loop-Emptied :
      (rounds : List (List Polled)) (received : List Received) (s : X11State)
      → (event_loop rounds received s).0 ≡ ok finished
      → ((event_loop rounds received s).1.pending ≡ [])
        × ((event_loop rounds received s).1.published ≡ [])
  unfolding event_loop
  event_loop-Emptied [] received s =
      Emptied-bind (drain_commands received)
        (λ d. after_commands (pure tt) (pure still_running) d.0) s
        λ d s'. Emptied-after (pure tt) (pure still_running) d.0 s' (λ t e. ground arith)
  event_loop-Emptied (polled ∷ rounds) received s =
      Emptied-bind (drain_commands received)
        (λ d. after_commands (loop_round polled) (event_loop rounds d.1) d.0) s
        λ d s'.
          Emptied-after (loop_round polled) (event_loop rounds d.1) d.0 s'
            (event_loop-Emptied rounds d.1)

  abbrev NotRunning : M Text Progress → X11State → Type 0
  NotRunning m s = (m s).0 ≢ ok still_running

  NotRunning-then : {A : Type 0} (m : M Text A) (s : X11State) → NotRunning (m >> pure finished) s
  unfolding ◌>>=◌
  NotRunning-then m s e = elim (Result-cases (m s).0) [
    | inl (a, q) ↦ ground arith
    | inr (a, q) ↦ ground arith
  ]

  NotRunning-bind :
      {A : Type 0} (m : M Text A) (f : A → M Text Progress) (s : X11State)
      → ((a : A) → (m s).0 ≡ ok a → NotRunning (f a) (m s).1)
      → NotRunning (m >>= f) s
  unfolding ◌>>=◌
  NotRunning-bind m f s h e = elim (Result-cases (m s).0) [
    | inl (a, q) ↦ h a q (ground arith)
    | inr (a, q) ↦ ground arith
  ]

  NotRunning-after :
      (round : Done) (next : M Text Progress) (state : LoopState) (s : X11State)
      → (state ≡ continue → (s' : X11State) → NotRunning next s')
      → NotRunning (after_commands round next state) s
  NotRunning-after round next continue s h =
      NotRunning-bind round (λ _. next) s λ a q. h refl (round s).1
  NotRunning-after round next stop_loop s h = NotRunning-then Owner.clear_selection s

  went_on :
      (received : List Received) (s : X11State) (d : LoopState × List Received)
      → (drain_commands received s).0 ≡ ok d
      → d.0 ≡ continue
      → suc (empties d.1) ≤ empties received
  went_on received s d q c =
      drain_commands-empties received s d.1 (q ∙ ap (λ state. ok (state, d.1)) c)

  -- The loop needs at most as many rounds as the channel is found empty before it holds a stop or
  -- its sender is gone: after those rounds it has ended, or has failed.
  pub event_loop-NotRunning :
      (rounds : List (List Polled)) (received : List Received) (s : X11State)
      → empties received ≤ length rounds
      → (event_loop rounds received s).0 ≢ ok still_running
  unfolding event_loop
  event_loop-NotRunning [] received s h =
      NotRunning-bind (drain_commands received)
        (λ d. after_commands (pure tt) (pure still_running) d.0) s
        λ d q.
          NotRunning-after (pure tt) (pure still_running) d.0 (drain_commands received s).1
            λ c s'. omega (arith, went_on received s d q c, h)
  event_loop-NotRunning (polled ∷ rounds) received s h =
      NotRunning-bind (drain_commands received)
        (λ d. after_commands (loop_round polled) (event_loop rounds d.1) d.0) s
        λ d q.
          NotRunning-after (loop_round polled) (event_loop rounds d.1) d.0
            (drain_commands received s).1
            λ c s'. event_loop-NotRunning rounds d.1 s' (omega (arith, went_on received s d q c, h))

  record_acts-ok : (acts : List Act) (s : X11State) → (record_acts {E = Text} acts s).0 ≡ ok tt
  unfolding record_acts
  record_acts-ok [] s = refl
  record_acts-ok (a ∷ acts) s = record_acts-ok acts (record s { trace = a ∷ s.trace })

  report_failure-finished :
      (r : Result Text Progress) (s : X11State)
      → r ≢ ok still_running
      → (report_failure r s).0 ≡ ok finished
  unfolding notify ◌>>=◌
  report_failure-finished (ok finished) s h = refl
  report_failure-finished (ok still_running) s h = elim (h refl) [ ]
  report_failure-finished (err e) s h =
      ground (arith, record_acts-ok (notify_error s.callbacks Status.platform_error e) s)

  -- The thread ends, on every server and with every host: once there are as many rounds as the
  -- channel is found empty before it holds a stop or its sender is gone, the run is over.
  pub run-finished :
      (o : Options) (callbacks : Callbacks) (rounds : List (List Polled)) (received : List Received)
      → empties received ≤ length rounds
      → (run o callbacks rounds received).0 ≡ ok finished
  unfolding run run_x11
  run-finished o callbacks rounds received h =
      report_failure-finished (run_x11 o rounds received (unconnected callbacks o)).0 _ (
        NotRunning-bind (setup_from o) (λ _. event_loop rounds received) (unconnected callbacks o)
          λ a q. event_loop-NotRunning rounds received _ h)
