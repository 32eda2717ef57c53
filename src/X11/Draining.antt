-- ===== src/X11/Draining.antt =====
-- The channel of commands: in which order they are run, and what is left.
use clipbus.Base.{ℕ, suc, ◌≤◌, ◌≡◌, ◌∷◌, [], List, ok, Result-cases, arith, inl, inr, ◌⊎◌}
use clipbus.Text.{Text}
use clipbus.Clipboard.{Command, stop}
use clipbus.X11.State.{X11State}
use clipbus.X11.Server.{World}
use clipbus.X11.Monad.{M, ◌>>◌, ◌>>=◌}
use clipbus.X11.Loop.{Received, command, empty, run_command, drain_commands, continue}

-- a command that does not end the loop
abbrev pub GoesOn : Command → Type 0
GoesOn stop = ⊥
GoesOn _ = Unit {0}

-- how many rounds see an empty channel before a stop, or before it hangs up
abbrev pub empties : List Received → ℕ
empties [] = 0
empties (empty ∷ rest) = suc (empties rest)
empties (command stop ∷ rest) = 0
empties (command c ∷ rest) = empties rest

module _ {A B : Type 0} where
  pub bind-congr :
      (m : M Text A) (f g : A → M Text B) (s : X11State)
      → ((a : A) (s' : X11State) → f a s' ≡ g a s')
      → (m >>= f) s ≡ (m >>= g) s
  unfolding ◌>>=◌
  bind-congr m f g s h = elim (Result-cases (m s).0) [
    | inl (a, e) ↦ ground (arith, h a (m s).1)
    | inr (a, e) ↦ ground arith
  ]

module _ ⦃w : World⦄ where
  pub drain_commands-GoesOn :
      (c : Command) (rest : List Received) (s : X11State)
      → GoesOn c
      → drain_commands (command c ∷ rest) s ≡ (run_command c >> drain_commands rest) s
  unfolding drain_commands
  drain_commands-GoesOn c rest s h = ground arith

  empties-GoesOn :
      (c : Command) (rest : List Received) → GoesOn c → empties (command c ∷ rest) ≡ empties rest
  empties-GoesOn c rest h = ground arith

  pub command-cases : (c : Command) → (c ≡ stop) ⊎ GoesOn c
  command-cases c = ground arith

  -- What is left in the channel when the loop goes on: at least one more empty channel was seen.
  pub drain_commands-empties :
      (received : List Received) (s : X11State) (rest : List Received)
      → (drain_commands received s).0 ≡ ok (continue, rest)
      → suc (empties rest) ≤ empties received
  unfolding drain_commands
  drain_commands-empties [] s rest e = ground arith
  drain_commands-empties (empty ∷ later) s rest e = ground arith
  drain_commands-empties (command c ∷ later) s rest e = elim (command-cases c) [
    | inl q ↦ ground arith
    | inr g ↦ elim (Result-cases (run_command c s).0) [
      | inl (a, q) ↦ ground (
        arith,
        drain_commands-GoesOn c later s g,
        empties-GoesOn c later g,
        drain_commands-empties later (run_command c s).1 rest,
      )
      | inr (a, q) ↦ ground (arith, drain_commands-GoesOn c later s g)
    ]
  ]
