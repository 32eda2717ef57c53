-- ===== src/X11/Accepts.antt =====
-- A connection that accepts each request, and the SelectionNotify that is sent on it.
use clipbus.Base.{ℕ, ok, ◌≡◌, ◌∷◌, [], min, u32_max, none, arith}
use clipbus.Trace.{Act, Trace, Atom}
use clipbus.X11.State.{X11State, SelectionRequestEvent}
use clipbus.X11.Server.{World}
use clipbus.X11.Connection.{response_property, send_selection_notify}

-- The server takes every request that has no reply.
abbrev pub Accepts : World → Type 0
Accepts w = (t : Trace) (a : Act) → w.refusal t a ≡ none

-- The trace ends with a SelectionNotify to the requestor, which names this property.
abbrev pub notification : SelectionRequestEvent → Atom → Act
notification event property = Act.send_event event.requestor (record {
  time = event.time;
  requestor = event.requestor;
  selection = event.selection;
  target = event.target;
  property = property;
})

abbrev pub Notified : SelectionRequestEvent → Atom → Trace → Trace → Type 0
Notified event property t t' = t' ≡ Act.flush ∷ notification event property ∷ t

-- What a requestor hears of an INCR transfer to come: its property events are subscribed to; the
-- property gets the type INCR and holds a lower bound of the size, at most u32::MAX; a
-- SelectionNotify names the property; then the clock is read for the deadline. Nothing else is done.
abbrev pub Announced : SelectionRequestEvent → Atom → ℕ → Trace → Trace → Type 0
Announced event incr bytes t t' =
    t'
    ≡ Act.read_clock
      ∷ Act.flush
      ∷ notification event (response_property event)
      ∷ Act.change_property32 event.requestor (response_property event) incr
          (min bytes u32_max ∷ [])
      ∷ Act.change_window_attributes event.requestor
      ∷ t

module _ ⦃w : World⦄ where
  module _ (accepts : Accepts w) where
    pub send_selection_notify-Notified :
        (event : SelectionRequestEvent) (property : Atom) (s : X11State)
        → send_selection_notify event property s
          ≡ (ok tt, record s { trace = Act.flush ∷ notification event property ∷ s.trace })
    unfolding send_selection_notify
    send_selection_notify-Notified event property s = ground (
      arith,
      accepts s.trace (notification event property),
      accepts (notification event property ∷ s.trace) Act.flush,
    )
