-- ===== src/X11/Relay.antt =====
-- Two backends: what one sends by INCR, the other reads.
use clipbus.Base.{ℕ, zero, suc, ◌∷◌, [], List, length, drop}
use clipbus.Text.{Text}
use clipbus.Status.{Status}
use clipbus.Trace.{Trace}
use clipbus.X11.State.{X11State, OwnerData}
use clipbus.X11.Server.{World}
use clipbus.X11.Connection.{response_property}
use clipbus.X11.Owner.{complete_request}
use clipbus.X11.Accepts.{Accepts}
use clipbus.X11.Chunks.{writes, Chunks}
use clipbus.X11.Transfer.{deletions}

-- the value with this number, and an empty one behind the last
abbrev pub nth : List Text → ℕ → Text
nth [] k = []
nth (c ∷ cs) zero = c
nth (c ∷ cs) (suc k) = nth cs k

-- What was written to the requestor's property between two states.
abbrev pub sent : OwnerData → X11State → X11State → List Text
sent r s s' =
    let written : Trace → List Text = writes r.event.requestor (response_property r.event) in
    drop (length (written s.trace)) (written s'.trace)

module _ (owner : World) where
  -- the owner's state after its host's answer and as many deletions
  abbrev pub answered : ℕ → ℕ → Text → X11State → X11State
  answered n id payload s =
      deletions ⦃w = owner⦄ n id (complete_request ⦃w = owner⦄ id Status.ok payload s).1
