-- ===== src/X11/Sound/Owner.antt =====
-- The invariant under the handlers of X11/Owner.antt.
use Prim.Native.Nat.{zero-le}
use clipbus.Base.{
  ℕ, ◌≤◌, ◌≡◌, refl, List, [], ◌∷◌, Option, none, some, false, length, arith, ltb, lookup,
}
use clipbus.Text.{Text}
use clipbus.Status.{Status}
use clipbus.Clipboard.{TargetOffer}
use clipbus.Trace.{Atom}
use clipbus.X11.State.{SelectionRequestEvent, PublishedTarget, OwnerData, Atoms}
use clipbus.X11.Server.{World}
use clipbus.X11.Monad.{gets}
use clipbus.X11.Connection.{inline_data_limit, max_change_property_payload_bytes}
use clipbus.X11.Incr.{as_owner_data}
use clipbus.X11.Owner.{
  publish_one, publish_each, publish_targets, release_selection, clear_selection, respond_targets,
  respond_u32, respond_empty, after_target_request, request_as, request_published, answer_published,
  answer_request, handle_selection_request, write_inline, complete_owner_data, complete_request,
}
use clipbus.X11.Sound.Invariant.{Issued}
use clipbus.X11.Sound.Rules.{
  Keeps, Keeps-take, Keeps-pure, Keeps-bind, Keeps-gets, Keeps-clear_pending,
}
use clipbus.X11.Sound.Connection.{connection_rules, Keeps-allocate, Keeps-fail_selection_request}
use clipbus.X11.Sound.Incr.{Keeps-begin_owner_incr_request}

module _ ⦃w : World⦄ {K : ℕ → Type 0} where
  Keeps-publish_one : (target : TargetOffer) → Keeps K (publish_one target)
  unfolding publish_one
  Keeps-publish_one target = search connection_rules depth 8

  Keeps-publish_each : (targets : List TargetOffer) → Keeps K (publish_each targets)
  unfolding publish_each
  Keeps-publish_each [] = Keeps-pure tt
  Keeps-publish_each (target ∷ targets) =
      Keeps-bind (publish_one target) (λ _. publish_each targets) (Keeps-publish_one target)
        (λ _. Keeps-publish_each targets)

  pub Keeps-publish_targets : (targets : List TargetOffer) → Keeps K (publish_targets targets)
  unfolding publish_targets
  Keeps-publish_targets targets = search (connection_rules, Keeps-publish_each) depth 12

  Keeps-release_selection : Keeps K release_selection
  unfolding release_selection
  Keeps-release_selection = search connection_rules depth 8

  pub Keeps-clear_selection : Keeps K clear_selection
  unfolding clear_selection
  Keeps-clear_selection =
      search (connection_rules, Keeps-clear_pending, Keeps-release_selection) depth 10

  Keeps-respond_targets : (event : SelectionRequestEvent) → Keeps K (respond_targets event)
  unfolding respond_targets
  Keeps-respond_targets event = search connection_rules depth 8

  Keeps-respond_u32 :
      (event : SelectionRequestEvent) (type_ : Atom) (value : ℕ)
      → Keeps K (respond_u32 event type_ value)
  unfolding respond_u32
  Keeps-respond_u32 event type_ value = search connection_rules depth 8

  Keeps-respond_empty : (event : SelectionRequestEvent) → Keeps K (respond_empty event)
  unfolding respond_empty
  Keeps-respond_empty event = search (connection_rules, zero-le) depth 8

  Keeps-after_target_request :
      (id : ℕ) (event : SelectionRequestEvent) (status : Status)
      → Keeps K (after_target_request id event status)
  unfolding after_target_request
  Keeps-after_target_request id event Status.ok = search connection_rules
  Keeps-after_target_request id event Status.pending = search connection_rules
  Keeps-after_target_request id event _ = search connection_rules depth 8

  Keeps-write_inline :
      (event : SelectionRequestEvent) (payload : Text)
      → length payload ≤ max_change_property_payload_bytes
      → Keeps K (write_inline event payload)
  unfolding write_inline
  Keeps-write_inline event payload h = search (connection_rules, h) depth 8

module _ ⦃w : World⦄ where
  Keeps-request_as :
      (event : SelectionRequestEvent) (target : PublishedTarget) (id : ℕ)
      → Keeps (λ next. Issued next id) (request_as event target id)
  unfolding request_as
  Keeps-request_as event target id = search (connection_rules, Keeps-after_target_request) depth 12

  Keeps-request_published :
      (event : SelectionRequestEvent) (target : PublishedTarget)
      → Keeps (λ next. Unit {0}) (request_published event target)
  unfolding request_published
  Keeps-request_published event target =
      Keeps-allocate (request_as event target) (Keeps-request_as event target)

  Keeps-answer_published :
      (event : SelectionRequestEvent) (target : Option PublishedTarget)
      → Keeps (λ next. Unit {0}) (answer_published event target)
  unfolding answer_published
  Keeps-answer_published event none = Keeps-fail_selection_request event
  Keeps-answer_published event (some target) = Keeps-request_published event target

  Keeps-answer_request :
      (event : SelectionRequestEvent) (atoms : Atoms) (target : Option PublishedTarget)
      → Keeps (λ next. Unit {0}) (answer_request event atoms target)
  unfolding answer_request
  Keeps-answer_request event atoms target =
      search
        (
          connection_rules, Keeps-respond_targets, Keeps-respond_u32, Keeps-respond_empty,
          Keeps-answer_published,
        )
        depth 8

  pub Keeps-handle_selection_request :
      (event : SelectionRequestEvent) → Keeps (λ next. Unit {0}) (handle_selection_request event)
  unfolding handle_selection_request
  Keeps-handle_selection_request event =
      Keeps-bind (gets (λ s. s.atoms)) _ (Keeps-gets (λ s. s.atoms)) λ atoms.
        Keeps-bind (gets (λ s. lookup event.target s.published)) (answer_request event atoms)
          (Keeps-gets (λ s. lookup event.target s.published)) (Keeps-answer_request event atoms)

  inline_fits :
      (max_inline_bytes : ℕ) (payload : Text)
      → ltb (inline_data_limit max_inline_bytes) (length payload) ≡ false
      → length payload ≤ max_change_property_payload_bytes
  unfolding inline_data_limit
  inline_fits max_inline_bytes payload h = ground arith

  Keeps-complete_data :
      (id : ℕ) (status : Status) (payload : Text) (r : OwnerData)
      → Keeps (λ next. Issued next id) (complete_owner_data id status payload r)
  unfolding complete_owner_data
  Keeps-complete_data id status payload r =
      search (connection_rules, Keeps-begin_owner_incr_request, Keeps-write_inline, inline_fits)
        depth 10

  pub Keeps-complete_request :
      (id : ℕ) (status : Status) (payload : Text)
      → Keeps (λ next. Unit {0}) (complete_request id status payload)
  unfolding complete_request
  Keeps-complete_request id status payload =
      Keeps-take id as_owner_data _ (complete_owner_data id status payload) (λ r. Unit {0}) refl
        (λ p r e h. tt) (Keeps-pure tt) (λ r h. Keeps-complete_data id status payload r)
