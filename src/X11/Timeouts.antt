-- ===== src/X11/Timeouts.antt =====
-- What the timeouts leave.
use clipbus.Base.{
  ℕ, ◌<◌, ◌≡◌, ◌∷◌, [], List, Option, none, some, ok, lookup, remove, Entries, Entries-imp, arith,
  true, false, refl, subst, ap, sym, ◌∙◌, inl, inr, ◌==◌, Bool-cases, Bool-cases,
}
use clipbus.Text.{bytes}
use clipbus.Status.{Status}
use clipbus.Clipboard.Notify.{notify_error, notify_target_list, notify_target_data}
use clipbus.Trace.{Act, Window, Atom}
use clipbus.Clipboard.{Callbacks}
use clipbus.X11.State.{
  X11State, PendingRequest, SelectionRequestEvent, owner_data, external_targets, external_data,
  external_incr_data, owner_incr_data, owner_incr_stream, deadline,
}
use clipbus.X11.Server.{World}
use clipbus.X11.Monad.{Done, ◌>>◌, record_acts, ◌>>=◌}
use clipbus.X11.Connection.{notify, none_atom, fail_selection_request}
use clipbus.X11.Events.{
  fail_expired, expire_removed, terminate_incr, expire_pending, expire_each, expire_one, expired,
}
use clipbus.X11.Accepts.{send_selection_notify-Notified, Accepts}
use clipbus.X11.Overdue.{
  all, has, found, spared, removes, all-Perm, found-expired, spared-expired, lookup-removes,
  Entries-removes, Entries-both, Entries-unlisted, all-Entries, Entries-all,
}

module _ ⦃w : World⦄ where
  module _ (accepts : Accepts w) where
    -- m succeeds and leaves the pending requests alone
    abbrev pub Quiet : Done → X11State → Type 0
    Quiet m s = ((m s).0 ≡ ok tt) × ((m s).1.pending ≡ s.pending)

    Quiet-then : (m n : Done) (s : X11State) → Quiet m s → Quiet n (m s).1 → Quiet (m >> n) s
    unfolding ◌>>=◌
    Quiet-then m n s h k = ground arith

    Quiet-record_acts : (acts : List Act) (s : X11State) → Quiet (record_acts acts) s
    unfolding record_acts
    Quiet-record_acts [] s = (refl, refl)
    Quiet-record_acts (a ∷ acts) s = Quiet-record_acts acts (record s { trace = a ∷ s.trace })

    pub Quiet-notify : (calls : Callbacks → List Act) (s : X11State) → Quiet (notify calls) s
    unfolding notify
    Quiet-notify calls s = Quiet-record_acts (calls s.callbacks) s

    Quiet-fail_selection_request :
        (event : SelectionRequestEvent) (s : X11State) → Quiet (fail_selection_request event) s
    unfolding fail_selection_request
    Quiet-fail_selection_request event s =
        ground (arith, send_selection_notify-Notified accepts event none_atom s)

    Quiet-terminate_incr :
        (requestor : Window) (property target_atom : Atom) (s : X11State)
        → Quiet (terminate_incr requestor property target_atom) s
    unfolding terminate_incr
    Quiet-terminate_incr requestor property target_atom s = ground arith

    Quiet-fail_expired : (id : ℕ) (p : PendingRequest) (s : X11State) → Quiet (fail_expired id p) s
    unfolding fail_expired
    Quiet-fail_expired id (owner_data r) s = Quiet-fail_selection_request r.event s
    Quiet-fail_expired id (owner_incr_data r) s =
        Quiet-terminate_incr r.requestor r.property r.target_atom s
    Quiet-fail_expired id (owner_incr_stream r) s =
        Quiet-terminate_incr r.requestor r.property r.target_atom s
    Quiet-fail_expired id (external_targets r) s =
        Quiet-notify (λ cb. notify_target_list cb id Status.timeout []) s
    Quiet-fail_expired id (external_data r) s =
        Quiet-notify (λ cb. notify_target_data cb id r.native_target Status.timeout []) s
    Quiet-fail_expired id (external_incr_data r) s =
        Quiet-notify (λ cb. notify_target_data cb id r.native_target Status.timeout []) s

    Quiet-expire_removed :
        (id : ℕ) (p : Option PendingRequest) (s : X11State) → Quiet (expire_removed id p) s
    unfolding expire_removed
    Quiet-expire_removed id none s = (refl, refl)
    Quiet-expire_removed id (some p) s =
        let calls : Callbacks → List Act =
          λ cb. notify_error cb Status.timeout (bytes "selection request timed out") in
        Quiet-then (notify calls) (fail_expired id p) s (Quiet-notify calls s)
          (Quiet-fail_expired id p _)

    expire_one-removes :
        (id : ℕ) (s : X11State)
        → ((expire_one id s).0 ≡ ok tt) × ((expire_one id s).1.pending ≡ remove id s.pending)
    unfolding expire_one
    expire_one-removes id s =
        Quiet-expire_removed id (lookup id s.pending) (record s { pending = remove id s.pending })

    expire_each-removes :
        (ids : List ℕ) (s : X11State)
        → ((expire_each ids s).0 ≡ ok tt) × ((expire_each ids s).1.pending ≡ removes ids s.pending)
    unfolding expire_each
    expire_each-removes [] s = (refl, refl)
    expire_each-removes (id ∷ ids) s =
        ground (arith, expire_one-removes id s, expire_each-removes ids (expire_one id s).1)

    expire_pending-removes :
        (s : X11State)
        → (expire_pending s).1.pending
          ≡ removes
              (expired (w.now s.trace) (w.pending_order (Act.read_clock ∷ s.trace) s.pending))
              s.pending
    unfolding expire_pending
    expire_pending-removes s =
        let ids = expired (w.now s.trace) (w.pending_order (Act.read_clock ∷ s.trace) s.pending) in
        ground (arith, expire_each-removes ids (record s { trace = Act.read_clock ∷ s.trace }))

    -- On a connection that accepts each request, with the time that is read first: after the timeouts
    -- no pending request is overdue.
    pub expire_pending-Late :
        (s : X11State) → Entries (λ k v. w.now s.trace < deadline v) (expire_pending s).1.pending
    expire_pending-Late s =
        let t = w.now s.trace in
        let order = w.pending_order (Act.read_clock ∷ s.trace) s.pending in
        let same = w.pending_order_perm (Act.read_clock ∷ s.trace) s.pending in
        let ids = expired t order in
        let known : all (found t ids) s.pending ≡ true =
          sym (all-Perm (found t ids) order s.pending same)
          ∙ found-expired t ids order (λ k q. q) in
        let listed =
          all-Entries (λ k v. found t ids (k, v) ≡ true) (found t ids) s.pending (λ k v q. q)
            known in
        subst (Entries (λ k v. t < deadline v)) (sym (expire_pending-removes s)) (
          Entries-imp (λ k v. (found t ids (k, v) ≡ true) × (has k ids ≡ false)) _
            (removes ids s.pending) (λ k v h. ground (arith, h.0, h.1))
            (Entries-both _ _ (removes ids s.pending) (Entries-removes _ ids s.pending listed)
              (Entries-unlisted ids s.pending)))

    -- On a connection that accepts each request: a request none of whose entries is overdue is
    -- after the timeouts as it was before.
    pub expire_pending-keeps :
        (s : X11State) (k : ℕ)
        → Entries (λ j v. j ≡ k → w.now s.trace < deadline v) s.pending
        → lookup k (expire_pending s).1.pending ≡ lookup k s.pending
    expire_pending-keeps s k h =
        let t = w.now s.trace in
        let order = w.pending_order (Act.read_clock ∷ s.trace) s.pending in
        let same = w.pending_order_perm (Act.read_clock ∷ s.trace) s.pending in
        let unlisted =
          all-Perm (spared t k) order s.pending same
          ∙ Entries-all (λ j v. j ≡ k → t < deadline v) (spared t k) s.pending
              (λ j v g. elim (Bool-cases (j == k)) [
                | inl q ↦ ground (arith, g (ground arith))
                | inr q ↦ ground arith
              ])
              h in
        ap (lookup k) (expire_pending-removes s)
        ∙ lookup-removes (expired t order) k s.pending (spared-expired t k order unlisted)
