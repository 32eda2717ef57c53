-- ===== src/X11/AfterStop.antt =====
-- X11State::drain_commands and X11State::event_loop: what stands in the channel behind a stop.
use clipbus.Base.{◌≡◌, ◌++◌, ◌∷◌, [], List, arith, refl, ap, sym, ◌∙◌, inl, inr}
use clipbus.Text.{Text}
use clipbus.Clipboard.{Command, Callbacks, Options, stop}
use clipbus.X11.State.{X11State}
use clipbus.X11.Server.{World}
use clipbus.X11.Monad.{M, Done, pure, ◌>>=◌}
use clipbus.X11.Loop.{
  LoopState, Received, Polled, Progress, command, empty, run_command, drain_commands, event_loop,
  after_commands, loop_round, stop_loop, continue, still_running,
}
use clipbus.X11.Run.{run, run_x11, unconnected, setup_from, report_failure}
use clipbus.X11.Draining.{bind-congr, drain_commands-GoesOn, command-cases, GoesOn}

module _ ⦃w : World⦄ where
  -- what is done with a drained channel
  abbrev Then : Type 0
  Then = LoopState × List Received → M Text Progress

  -- f does the same with these two channels, whatever is in front
  abbrev Agree : List Received → List Received → Then → Type 0
  Agree x y f =
      (state : LoopState) (r : List Received) (s : X11State)
      → f (state, r ++ (command stop ∷ x)) s ≡ f (state, r ++ (command stop ∷ y)) s

  drain_commands-then :
      (c : Command) (f : Then) (rest : List Received) (s : X11State)
      → GoesOn c
      → (drain_commands (command c ∷ rest) >>= f) s
        ≡ (run_command c >>= λ _. drain_commands rest >>= f) s
  unfolding ◌>>=◌
  drain_commands-then c f rest s g = ground (arith, drain_commands-GoesOn c rest s g)

  drain_commands-Agree :
      (x y : List Received) (f : Then)
      → Agree x y f
      → ((a b : List Received) (s : X11State) → f (stop_loop, a) s ≡ f (stop_loop, b) s)
      → (r : List Received) (s : X11State)
      → (drain_commands (r ++ (command stop ∷ x)) >>= f) s
        ≡ (drain_commands (r ++ (command stop ∷ y)) >>= f) s
  unfolding drain_commands ◌>>=◌
  drain_commands-Agree x y f same over [] s = over x y s
  drain_commands-Agree x y f same over (empty ∷ r) s = same continue r s
  drain_commands-Agree x y f same over (command c ∷ r) s = elim (command-cases c) [
    | inl q ↦ ground (arith, over (r ++ (command stop ∷ x)) (r ++ (command stop ∷ y)) s)
    | inr g ↦
        drain_commands-then c f (r ++ (command stop ∷ x)) s g
        ∙ bind-congr (run_command c) (λ _. drain_commands (r ++ (command stop ∷ x)) >>= f)
            (λ _. drain_commands (r ++ (command stop ∷ y)) >>= f) s
            (λ _ s'. drain_commands-Agree x y f same over r s')
        ∙ sym (drain_commands-then c f (r ++ (command stop ∷ y)) s g)
  ]

  round-Agree :
      (x y : List Received) (round : Done) (next : List Received → M Text Progress)
      → ((r : List Received) (s : X11State)
          → next (r ++ (command stop ∷ x)) s ≡ next (r ++ (command stop ∷ y)) s)
      → Agree x y (λ d. after_commands round (next d.1) d.0)
  round-Agree x y round next h continue r s =
      bind-congr round (λ _. next (r ++ (command stop ∷ x))) (λ _. next (r ++ (command stop ∷ y))) s
        (λ _ s'. h r s')
  round-Agree x y round next h stop_loop r s = refl

  event_loop-stop :
      (rounds : List (List Polled)) (r x y : List Received) (s : X11State)
      → event_loop rounds (r ++ (command stop ∷ x)) s
        ≡ event_loop rounds (r ++ (command stop ∷ y)) s
  unfolding event_loop
  event_loop-stop [] r x y s =
      drain_commands-Agree x y (λ d. after_commands (pure tt) (pure still_running) d.0)
        (round-Agree x y (pure tt) (λ _. pure still_running) (λ _ _. refl)) (λ _ _ _. refl) r s
  event_loop-stop (polled ∷ rounds) r x y s =
      drain_commands-Agree x y (λ d. after_commands (loop_round polled) (event_loop rounds d.1) d.0)
        (round-Agree x y (loop_round polled) (event_loop rounds)
          (λ r s. event_loop-stop rounds r x y s))
        (λ _ _ _. refl) r s

  -- Whatever stands in the channel behind a stop, the whole run is the same: the same result, the
  -- same acts, the same state. So no command behind a stop has any effect.
  pub run-stop :
      (o : Options) (callbacks : Callbacks) (rounds : List (List Polled))
      (received later later' : List Received)
      → run o callbacks rounds (received ++ (command stop ∷ later))
        ≡ run o callbacks rounds (received ++ (command stop ∷ later'))
  unfolding run run_x11
  run-stop o callbacks rounds received later later' =
      ap (λ (r, s). report_failure r s)
        (bind-congr (setup_from o) (λ _. event_loop rounds (received ++ (command stop ∷ later)))
          (λ _. event_loop rounds (received ++ (command stop ∷ later'))) (unconnected callbacks o)
          (λ _ s. event_loop-stop rounds received later later' s))
