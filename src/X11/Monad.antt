-- ===== src/X11/Monad.antt =====
-- Methods of X11State: an action takes the state and gives back a Result and the state. What was
-- done before an early return stays done.

use clipbus.Base.{
  ℕ, Option, none, some, List, [], ◌∷◌, ◌++◌, String, Result, ok, err, Table, lookup, remove,
  insert,
}
use clipbus.Text.{Text, bytes}
use clipbus.Trace.{Act, Trace}
use clipbus.X11.State.{X11State, PendingRequest, PublishedTarget}
use clipbus.X11.Server.{World, Reply, unsent, unread, answer}

abbrev pub M : Type 0 → Type 0 → Type 0
M E A = X11State → Result E A × X11State

-- Result<(), String>
abbrev pub Done : Type 0
Done = M Text (Unit {0})

module _ {E A : Type 0} where
  unfoldable pub pure : A → M E A
  pure a s = (ok a, s)

  unfoldable pub throw : E → M E A
  throw e s = (err e, s)

  unfoldable pub lift : Result E A → M E A
  lift r s = (r, s)

  unfoldable pub gets : (X11State → A) → M E A
  gets f s = (ok (f s), s)

module _ {E A B : Type 0} where
  abbrev continue : Result E A → (A → M E B) → M E B
  continue (ok a) f s = f a s
  continue (err e) f s = (err e, s)

  infixl 5 ◌>>=◌ ◌>>◌
  -- `?` on m, and then the rest; opening this opens `pure`, `throw`, `lift` and `gets` too
  unfoldable pub ◌>>=◌ : M E A → (A → M E B) → M E B
  unfolding pure throw lift gets
  ◌>>=◌ m f s = let (r, s') = m s in continue r f s'

  abbrev pub ◌>>◌ : M E A → M E B → M E B
  m >> n = m >>= λ _. n

module _ {E F A : Type 0} where
  abbrev map_err_result : (E → F) → Result E A → Result F A
  map_err_result f (ok a) = ok a
  map_err_result f (err e) = err (f e)

  -- .map_err(f)
  unfoldable pub map_err : (E → F) → M E A → M F A
  map_err f m s = let (r, s') = m s in (map_err_result f r, s')

module _ {E F A : Type 0} where
  -- the Result of an action as a value, with no `?` on it
  unfoldable pub catch : M E A → M F (Result E A)
  catch m s = let (r, s') = m s in (ok r, s')

-- format!("{context}: {error}")
unfoldable pub context : Text → Text → Text
context c e = c ++ (bytes ": " ++ e)

module _ {E : Type 0} where
  unfoldable pub modify : (X11State → X11State) → M E (Unit {0})
  modify f s = (ok tt, f s)

  unfoldable pub record_acts : List Act → M E (Unit {0})
  record_acts [] s = (ok tt, s)
  record_acts (a ∷ acts) s = record_acts acts (record s { trace = a ∷ s.trace })

  unfoldable pub set_pending : (Table PendingRequest → Table PendingRequest) → M E (Unit {0})
  set_pending f s = (ok tt, record s { pending = f s.pending })

  unfoldable pub set_published : (Table PublishedTarget → Table PublishedTarget) → M E (Unit {0})
  set_published f s = (ok tt, record s { published = f s.published })

  -- self.pending.insert(id, request)
  unfoldable pub insert_pending : ℕ → PendingRequest → M E (Unit {0})
  unfolding set_pending
  insert_pending id request = set_pending (insert id request)

  -- self.pending.remove(&id)
  unfoldable pub remove_pending : ℕ → M E (Option PendingRequest)
  remove_pending id s = (ok (lookup id s.pending), record s { pending = remove id s.pending })

module _ ⦃w : World⦄ where
  abbrev submitted : Option Text → Result Text (Unit {0})
  submitted none = ok tt
  submitted (some e) = err e

  -- a request on the connection that has no reply
  unfoldable pub send : Act → Done
  send act s = (submitted (w.refusal s.trace act), record s { trace = act ∷ s.trace })

  -- self.conn.request(..).map_err(|error| format!("{c}: {error}"))
  unfoldable pub submit : String → Act → Done
  unfolding map_err send
  submit c act = map_err (context (bytes c)) (send act)

  -- let _ = self.conn.request(..)
  unfoldable pub attempt : Act → Done
  unfolding send
  attempt act s = let (r, s') = send act s in (ok tt, s')

  abbrev read_reply : {A : Type 0} → Text → Text → Reply A → Result Text A
  read_reply c d (unsent e) = err (context c e)
  read_reply c d (unread e) = err (context d e)
  read_reply c d (answer a) = ok a

  -- self.conn.request(..).map_err(|error| format!("{c}: {error}"))?.reply().map_err(|error|
  -- format!("{d}: {error}"))
  unfoldable pub ask : {A : Type 0} → Text → Text → Act → (Trace → Reply A) → M Text A
  ask c d act reply s = (read_reply c d (reply s.trace), record s { trace = act ∷ s.trace })

  -- Instant::now()
  unfoldable pub now : {E : Type 0} → M E ℕ
  now s = (ok (w.now s.trace), record s { trace = Act.read_clock ∷ s.trace })
