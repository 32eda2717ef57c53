-- ===== src/Clipboard/Lifecycle.antt =====
-- The life of a handle: the calls that the host makes on it, in any order.
use clipbus.Base.{ℕ, ◌+◌, ◌≡◌, ◌∷◌, [], List, Bool, true, false, if◌then◌else◌, arith}
use clipbus.Status.{Status}
use clipbus.Clipboard.Types.{Options, Callbacks, Command}
use clipbus.Clipboard.Handle.{
  Deed, spawn, join, System, Clipboard, new_clipboard, start, stop_clipboard, send_command,
  ask_backend,
}

pub data Call : Type 0 where
  start_call stop_call : Call
  send_call : Command → Call
  ask_call : (ℕ → Command) → Call

pub data Outcome : Type 0 where
  accepted : Outcome
  refused : Status → Outcome

abbrev outcome_of : Status → Outcome
outcome_of Status.ok = accepted
outcome_of s = refused s

module _ ⦃sys : System⦄ where
  abbrev perform : Call → Clipboard → Status × Clipboard
  perform start_call c = start c
  perform stop_call c = stop_clipboard c
  perform (send_call command) c = send_command command c
  perform (ask_call command) c = (Status.ok, (ask_backend command c).1)

  -- the handle after these calls, the first first
  abbrev pub after_calls : List Call → Clipboard → Clipboard
  after_calls [] c = c
  after_calls (call ∷ calls) c = after_calls calls (perform call c).1

-- how many threads were spawned, and how many joined
abbrev pub spawned : List Deed → ℕ
spawned [] = 0
spawned (spawn o cb ∷ ds) = spawned ds + 1
spawned (_ ∷ ds) = spawned ds

abbrev pub joined : List Deed → ℕ
joined [] = 0
joined (join ∷ ds) = joined ds + 1
joined (_ ∷ ds) = joined ds

abbrev pub Balanced : Clipboard → Type 0
Balanced c = spawned c.deeds ≡ joined c.deeds + (if c.runtime then 1 else 0)

module _ ⦃sys : System⦄ where
  perform-Balanced : (call : Call) (c : Clipboard) → Balanced c → Balanced (perform call c).1
  unfolding start stop_clipboard send_command ask_backend
  perform-Balanced start_call c h = ground arith
  perform-Balanced stop_call c h = ground arith
  perform-Balanced (send_call command) c h = ground arith
  perform-Balanced (ask_call command) c h = ground arith

  after_calls-Balanced :
      (calls : List Call) (c : Clipboard) → Balanced c → Balanced (after_calls calls c)
  after_calls-Balanced [] c h = h
  after_calls-Balanced (call ∷ calls) c h =
      after_calls-Balanced calls (perform call c).1 (perform-Balanced call c h)

  -- On any system, and after any calls on a new handle: the threads that were spawned are those
  -- that were joined, and one more exactly if the handle has a runtime. So at most one backend
  -- thread runs at a time, and a handle that was stopped has left none behind.
  pub new_clipboard-Balanced :
      (o : Options) (cb : Callbacks) (calls : List Call)
      → Balanced (after_calls calls (new_clipboard o cb))
  unfolding new_clipboard
  new_clipboard-Balanced o cb calls = after_calls-Balanced calls (new_clipboard o cb) (omega arith)

-- A system on which nothing fails.
pub record Healthy (sys : System) : Type 0 where
  pub locks : (ds : List Deed) → sys.locks ds ≡ true
  pub spawns : (ds : List Deed) → sys.spawns ds ≡ true
  pub receives : (ds : List Deed) → sys.receives ds ≡ true
  pub joins : (ds : List Deed) → sys.joins ds ≡ true

-- What the handle promises: two states, and the status of each call.
pub data Order : Type 0 where
  start_order stop_order : Order
  send_order : Command → Order

abbrev pub promised : Order → Bool → Status × Bool
promised start_order false = (Status.ok, true)
promised start_order true = (Status.already_started, true)
promised stop_order running = (Status.ok, false)
promised (send_order command) false = (Status.not_started, false)
promised (send_order command) true = (Status.ok, true)

abbrev pub promised_statuses : List Order → Bool → List Status
promised_statuses [] running = []
promised_statuses (order ∷ orders) running =
    (promised order running).0 ∷ promised_statuses orders (promised order running).1

module _ ⦃sys : System⦄ where
  abbrev pub obey : Order → Clipboard → Status × Clipboard
  obey start_order c = start c
  obey stop_order c = stop_clipboard c
  obey (send_order command) c = send_command command c

  abbrev pub statuses : List Order → Clipboard → List Status
  statuses [] c = []
  statuses (order ∷ orders) c = (obey order c).0 ∷ statuses orders (obey order c).1

  obey-promised :
      (h : Healthy sys) (order : Order) (c : Clipboard)
      → ((obey order c).0 ≡ (promised order c.runtime).0)
        × ((obey order c).1.runtime ≡ (promised order c.runtime).1)
  unfolding start stop_clipboard send_command
  obey-promised h start_order c = ground (arith, h.locks c.deeds, h.spawns c.deeds)
  obey-promised h stop_order c =
      ground (arith, h.locks c.deeds, h.joins (join ∷ Deed.send Command.stop ∷ c.deeds))
  obey-promised h (send_order command) c = ground (arith, h.locks c.deeds, h.receives c.deeds)

  -- On a system where the lock is not poisoned and neither the thread nor its channel fails, any
  -- calls of start, stop and the commands return the statuses of the two-state specification:
  -- start is refused while running, a command is refused while stopped, stop always succeeds.
  pub statuses-promised :
      (h : Healthy sys) (orders : List Order) (c : Clipboard)
      → statuses orders c ≡ promised_statuses orders c.runtime
  statuses-promised h [] c = ground arith
  statuses-promised h (order ∷ orders) c =
      let k = obey-promised h order c in
      let rest = statuses-promised h orders (obey order c).1 in rw (k.0, rest, k.1)
