-- ===== src/X11/Asked.antt =====
-- What becomes of a SelectionRequest.
use mathlib.Core.List.{Perm}
use mathlib.Core.List.Perm
use clipbus.Base.{
  ℕ, ◌≡◌, ◌≢◌, ◌⊎◌, inl, inr, ◌∷◌, [], List, map, some, none, lookup, arith, ap, subst, sym,
  Option-cases, Bool-cases, ◌==◌,
}
use clipbus.Text.{Text}
use clipbus.Trace.{Act, Atom}
use clipbus.X11.State.{X11State, SelectionRequestEvent, PublishedTarget}
use clipbus.X11.Server.{World}
use clipbus.X11.Monad.{map_err, context, send, ◌>>=◌, ◌>>◌}
use clipbus.X11.Connection.{
  none_atom, response_property, fail_selection_request, send_selection_notify,
}
use clipbus.X11.Owner.{
  handle_selection_request, answer_request, answer_published, respond_targets, respond_u32,
  respond_empty, published_values,
}
use clipbus.X11.Accepts.{Accepts, Notified, send_selection_notify-Notified}
use clipbus.X11.Waiting.{AskedFor, request_published-AskedFor}

-- not one of the targets that are answered at once
abbrev pub Plain : SelectionRequestEvent → X11State → Type 0
Plain event s =
    (event.target ≢ s.atoms.targets)
    × (event.target ≢ s.atoms.timestamp)
    × (event.target ≢ s.atoms.save_targets)

-- All that was done is a SelectionNotify without a property.
abbrev pub RefusedAtOnce : SelectionRequestEvent → X11State → X11State → Type 0
RefusedAtOnce event s s' = Notified event none_atom s.trace s'.trace × (s'.pending ≡ s.pending)

-- All that was done is this write and a SelectionNotify that names the property.
abbrev pub WrittenAtOnce : SelectionRequestEvent → Act → X11State → X11State → Type 0
WrittenAtOnce event write s s' =
    Notified event (response_property event) (write ∷ s.trace) s'.trace × (s'.pending ≡ s.pending)

-- the three special targets, and the atom of each target that is published
abbrev pub TargetsListed : SelectionRequestEvent → X11State → X11State → Type 0
TargetsListed event s s' =
    (listed : List Atom) × Perm listed (map (λ t. t.atom) (map (λ e. e.1) s.published))
    × WrittenAtOnce event
        (Act.change_property32 event.requestor (response_property event) s.atoms.atom
          (s.atoms.targets ∷ s.atoms.timestamp ∷ s.atoms.save_targets ∷ listed))
        s s'

abbrev pub AnsweredAtOnce : SelectionRequestEvent → X11State → X11State → Type 0
AnsweredAtOnce event s s' =
    let property = response_property event in
    ((event.target ≡ s.atoms.targets) × TargetsListed event s s')
    ⊎ (((event.target ≢ s.atoms.targets)
          × (event.target ≡ s.atoms.timestamp)
          × WrittenAtOnce event
              (Act.change_property32 event.requestor property s.atoms.integer (0 ∷ [])) s s')
        ⊎ ((event.target ≢ s.atoms.targets)
            × (event.target ≢ s.atoms.timestamp)
            × (event.target ≡ s.atoms.save_targets)
            × WrittenAtOnce event (Act.change_property8 event.requestor property event.target []) s
                s'))

module _ ⦃w : World⦄ where
  -- what a SelectionRequest comes to
  abbrev pub Answered : SelectionRequestEvent → X11State → X11State → Type 0
  Answered event s s' =
      (((event.selection ≢ s.atoms.clipboard)
          ⊎ (Plain event s × (lookup event.target s.published ≡ none)))
        × RefusedAtOnce event s s')
      ⊎ ((event.selection ≡ s.atoms.clipboard)
          × (AnsweredAtOnce event s s'
              ⊎ (Plain event s
                  × ((p : PublishedTarget) × (lookup event.target s.published ≡ some p)
                      × AskedFor event p s s'))))

  module _ (accepts : Accepts w) where
    fail-RefusedAtOnce :
        (event : SelectionRequestEvent) (s : X11State)
        → RefusedAtOnce event s (fail_selection_request event s).1
    unfolding fail_selection_request
    fail-RefusedAtOnce event s =
        let q = send_selection_notify-Notified accepts event none_atom s in
        (ap (λ x. x.1.trace) q, ap (λ x. x.1.pending) q)

    write-WrittenAtOnce :
        (c : Text) (event : SelectionRequestEvent) (act : Act) (s : X11State)
        → WrittenAtOnce event act s
            ((map_err (context c) (send act)
                >> send_selection_notify event (response_property event))
              s).1
    unfolding map_err send ◌>>=◌
    write-WrittenAtOnce c event act s =
        let a = accepts s.trace act in
        let q =
          send_selection_notify-Notified accepts event (response_property event)
            (record s { trace = act ∷ s.trace }) in
        (ground (arith, a, q), ground (arith, a, q))

    pub respond_targets-TargetsListed :
        (event : SelectionRequestEvent) (s : X11State)
        → TargetsListed event s (respond_targets event s).1
    unfolding respond_targets
    respond_targets-TargetsListed event s = (
      map (λ t. t.atom) (published_values s),
      Perm.map (λ t. t.atom) (Perm.map (λ e. e.1) (w.published_order_perm s.trace s.published)),
      write-WrittenAtOnce _ event _ s,
    )

    respond_u32-WrittenAtOnce :
        (event : SelectionRequestEvent) (type_ : Atom) (value : ℕ) (s : X11State)
        → WrittenAtOnce event
            (Act.change_property32 event.requestor (response_property event) type_ (value ∷ []))
            s
            (respond_u32 event type_ value s).1
    unfolding respond_u32
    respond_u32-WrittenAtOnce event type_ value s = write-WrittenAtOnce _ event _ s

    respond_empty-WrittenAtOnce :
        (event : SelectionRequestEvent) (s : X11State)
        → WrittenAtOnce event
            (Act.change_property8 event.requestor (response_property event) event.target [])
            s
            (respond_empty event s).1
    unfolding respond_empty
    respond_empty-WrittenAtOnce event s = write-WrittenAtOnce _ event _ s

    answer_published-Answered :
        (event : SelectionRequestEvent) (s : X11State)
        → event.selection ≡ s.atoms.clipboard
        → Plain event s
        → Answered event s (answer_published event (lookup event.target s.published) s).1
    unfolding answer_published
    answer_published-Answered event s sel plain =
        elim (Option-cases (lookup event.target s.published)) [
          | inl e ↦
              subst (λ o. Answered event s (answer_published event o s).1) (sym e)
                (inl (inr (plain, e), fail-RefusedAtOnce event s))
          | inr (p, e) ↦
              subst (λ o. Answered event s (answer_published event o s).1) (sym e)
                (inr (sel, inr (plain, (p, e, request_published-AskedFor accepts event p s))))
        ]

    -- On a connection that accepts each request, every SelectionRequest comes to one of these. For
    -- another selection, or for a target that is neither special nor published: a SelectionNotify
    -- without a property is all that is done. For TARGETS, the property gets the three special
    -- targets and the atom of each published target; for TIMESTAMP, the number 0; for SAVE_TARGETS,
    -- nothing; and a SelectionNotify that names it follows. For a published target the host is
    -- asked once, under the next id, with the target's name and limit, if it gave a function and the
    -- name is a C string: if its answer is Ok or Pending, the request waits under that id and
    -- nothing else is done; else, or if it could not be asked, the request does not pend and the last
    -- that is done is a SelectionNotify without a property.
    pub handle_selection_request-Answered :
        (event : SelectionRequestEvent) (s : X11State)
        → Answered event s (handle_selection_request event s).1
    unfolding handle_selection_request answer_request
    handle_selection_request-Answered event s =
        let ends : (x : X11State)
            → (handle_selection_request event s).1 ≡ x
            → Answered event s x
            → Answered event s (handle_selection_request event s).1 =
          λ x e h. subst (Answered event s) (sym e) h in
        elim (Bool-cases (event.selection == s.atoms.clipboard)) [
          | inr n ↦
              ends (fail_selection_request event s).1 (ground arith)
                (inl (inl (ground arith), fail-RefusedAtOnce event s))
          | inl y ↦ elim (Bool-cases (event.target == s.atoms.targets)) [
            | inl a ↦ ends (respond_targets event s).1 (ground arith) (
                inr (ground arith, inl (inl (ground arith, respond_targets-TargetsListed event s))))
            | inr na ↦ elim (Bool-cases (event.target == s.atoms.timestamp)) [
              | inl b ↦ ends (respond_u32 event s.atoms.integer 0 s).1 (ground arith) (
                  inr (
                    ground arith,
                    inl (
                        inr (
                          inl (
                            ground arith,
                            ground arith,
                            respond_u32-WrittenAtOnce event s.atoms.integer 0 s,
                          ))),
                  ))
              | inr nb ↦ elim (Bool-cases (event.target == s.atoms.save_targets)) [
                | inl c ↦ ends (respond_empty event s).1 (ground arith) (
                    inr (
                      ground arith,
                      inl (
                          inr (
                            inr (
                              ground arith,
                              ground arith,
                              ground arith,
                              respond_empty-WrittenAtOnce event s,
                            ))),
                    ))
                | inr nc ↦
                    ends (answer_published event (lookup event.target s.published) s).1
                      (ground arith)
                      (answer_published-Answered event s (ground arith)
                        (ground arith, ground arith, ground arith))
              ]
            ]
          ]
        ]
