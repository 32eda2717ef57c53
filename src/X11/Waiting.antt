-- ===== src/X11/Waiting.antt =====
-- What becomes of a SelectionRequest for a published target: the host is asked.
use clipbus.Base.{
  ℕ, ok, ◌≡◌, ◌⊎◌, inl, inr, ◌∷◌, [], some, none, lookup, insert, remove, lookup-inserted,
  lookup-removed, ◌+◌, arith, refl, ap, ◌∙◌, Option-cases,
}
use clipbus.Text.{Text, bytes, c_string}
use clipbus.Status.{Status, ClipbusStatus, callback_status}
use clipbus.Clipboard.{HostFn}
use clipbus.Clipboard.Notify.{notify_error}
use clipbus.Trace.{Act, Trace, Atom}
use clipbus.X11.State.{X11State, SelectionRequestEvent, PublishedTarget, OwnerData, owner_data}
use clipbus.X11.Server.{World}
use clipbus.X11.Monad.{◌>>=◌, ◌>>◌, remove_pending, record_acts}
use clipbus.X11.Connection.{none_atom, notify, fail_selection_request, request_target, next_id}
use clipbus.X11.Owner.{request_published, request_as, after_target_request}
use clipbus.X11.Accepts.{Accepts, notification, send_selection_notify-Notified}

-- The last that was done is to send and flush a SelectionNotify that names this property.
abbrev pub Replied : SelectionRequestEvent → Atom → X11State → Type 0
Replied event property s = (t : Trace) × (s.trace ≡ Act.flush ∷ notification event property ∷ t)

-- how often the host was asked for a target, and for which
abbrev pub asks : Trace → Trace
asks [] = []
asks (Act.call_target_request f user id name size timeout ∷ t) =
    Act.call_target_request f user id name size timeout ∷ asks t
asks (_ ∷ t) = asks t

-- the host will complete the request, or has already
abbrev pub Willing : ClipbusStatus → Type 0
Willing ClipbusStatus.ok = Unit {0}
Willing ClipbusStatus.pending = Unit {0}
Willing _ = ⊥

-- The request was answered without a property, and does not pend under this id.
abbrev pub TurnedDown : SelectionRequestEvent → ℕ → X11State → Type 0
TurnedDown event id s' = Replied event none_atom s' × (lookup id s'.pending ≡ none)

-- the call that asks the host for this target, under the next id
abbrev pub host_call_for : PublishedTarget → HostFn → Text → X11State → Act
host_call_for p f name s =
    Act.call_target_request f s.callbacks.user s.next_request_id name p.max_bytes
      s.options.request_timeout_ms

module _ ⦃w : World⦄ where
  -- The request pends under this id, for this target, with a deadline from the time that was read.
  abbrev pub Waits : SelectionRequestEvent → PublishedTarget → X11State → X11State → Type 0
  Waits event p s s' =
      (r : OwnerData) × (lookup s.next_request_id s'.pending ≡ some (owner_data r))
      × (r.event ≡ event)
      × (r.target ≡ p)
      × (r.deadline ≡ w.now s.trace + s.options.request_timeout_ms)

  -- With a function and a C string for the target's name, the host is asked once: if it is willing, the
  -- request waits and nothing else is done; if not, it is turned down.
  abbrev pub HostAsked :
      SelectionRequestEvent → PublishedTarget → HostFn → Text → X11State → X11State → Type 0
  HostAsked event p f name s s' =
      let asked : Trace = host_call_for p f name s ∷ Act.read_clock ∷ s.trace in
      (Willing (w.target_request_answer asked) × (s'.trace ≡ asked) × Waits event p s s')
      ⊎ ((¬ Willing (w.target_request_answer asked))
          × (asks s'.trace ≡ host_call_for p f name s ∷ asks s.trace)
          × TurnedDown event s.next_request_id s')

  -- Without them the host is not asked, and the request is turned down.
  abbrev pub HostSilent : SelectionRequestEvent → X11State → X11State → Type 0
  HostSilent event s s' = (asks s'.trace ≡ asks s.trace) × TurnedDown event s.next_request_id s'

  abbrev pub AskedFor : SelectionRequestEvent → PublishedTarget → X11State → X11State → Type 0
  AskedFor event p s s' =
      ((f : HostFn) × (name : Text) × (s.callbacks.target_request ≡ some f)
        × (c_string p.name ≡ some name)
        × HostAsked event p f name s s')
      ⊎ (((s.callbacks.target_request ≡ none) ⊎ (c_string p.name ≡ none)) × HostSilent event s s')

  module _ (accepts : Accepts w) where
    notify_error-quiet :
        (status : Status) (message : Text) (s : X11State)
        → let (r, s') = notify {E = Text} (λ cb. notify_error cb status message) s in
          (r ≡ ok tt) × (asks s'.trace ≡ asks s.trace) × (s'.pending ≡ s.pending)
    unfolding notify notify_error record_acts
    notify_error-quiet status message s = ground arith

    -- what a rejection leaves
    abbrev Turned : ℕ → SelectionRequestEvent → X11State → X11State → Type 0
    Turned id event s x = (asks x.trace ≡ asks s.trace) × TurnedDown event id x

    rejected :
        (id : ℕ) (event : SelectionRequestEvent) (status : Status) (s : X11State)
        → Turned id event s
            ((remove_pending id >>= λ _.
                (notify
                  λ cb. notify_error cb status (bytes "target request callback rejected request"))
                >> fail_selection_request event)
              s).1
    unfolding remove_pending ◌>>=◌ fail_selection_request
    rejected id event status s =
        let message = bytes "target request callback rejected request" in
        let s1 : X11State = record s { pending = remove id s.pending } in
        let s2 = (notify {E = Text} (λ cb. notify_error cb status message) s1).1 in
        let (fine, same, kept) = notify_error-quiet status message s1 in
        let sent = send_selection_notify-Notified accepts event none_atom s2 in
        (
          ground (arith, fine, same, sent),
          (
            (s2.trace, ground (arith, fine, sent)),
            ground (arith, fine, kept, sent, lookup-removed id s.pending),
          ),
        )

    after_target_request-cases :
        (id : ℕ) (event : SelectionRequestEvent) (c : ClipbusStatus) (s : X11State)
        → let s' = (after_target_request id event (callback_status c) s).1 in
          (Willing c × (s' ≡ s)) ⊎ ((¬ Willing c) × Turned id event s s')
    unfolding after_target_request callback_status
    after_target_request-cases id event ClipbusStatus.ok s = inl (tt, refl)
    after_target_request-cases id event ClipbusStatus.pending s = inl (tt, refl)
    after_target_request-cases id event ClipbusStatus.unsupported s =
        inr ((λ x. x), rejected id event Status.unsupported s)
    after_target_request-cases id event ClipbusStatus.timeout s =
        inr ((λ x. x), rejected id event Status.timeout s)
    after_target_request-cases id event ClipbusStatus.platform_error s =
        inr ((λ x. x), rejected id event Status.platform_error s)
    after_target_request-cases id event ClipbusStatus.invalid_argument s =
        inr ((λ x. x), rejected id event Status.invalid_argument s)
    after_target_request-cases id event ClipbusStatus.already_started s =
        inr ((λ x. x), rejected id event Status.already_started s)
    after_target_request-cases id event ClipbusStatus.not_started s =
        inr ((λ x. x), rejected id event Status.not_started s)
    after_target_request-cases id event ClipbusStatus.not_found s =
        inr ((λ x. x), rejected id event Status.not_found s)
    after_target_request-cases id event ClipbusStatus.panic s =
        inr ((λ x. x), rejected id event Status.panic s)

    -- the request as it is put down before the host is asked, and the state then
    abbrev put_down : SelectionRequestEvent → PublishedTarget → X11State → OwnerData
    put_down event p s = record {
      event = event;
      target = p;
      deadline = w.now s.trace + s.options.request_timeout_ms;
    }

    abbrev before_call : SelectionRequestEvent → PublishedTarget → X11State → X11State
    before_call event p s = record (next_id s) {
      trace = Act.read_clock ∷ s.trace;
      pending = insert s.next_request_id (owner_data (put_down event p s)) s.pending;
    }

    request_published-asks :
        (event : SelectionRequestEvent) (p : PublishedTarget) (s : X11State) (f : HostFn)
        (name : Text)
        → s.callbacks.target_request ≡ some f
        → c_string p.name ≡ some name
        → HostAsked event p f name s (request_published event p s).1
    unfolding request_published request_as request_target
    request_published-asks event p s f name e k =
        let id = s.next_request_id in
        let s3 = before_call event p s in
        let s4 : X11State = record s3 { trace = host_call_for p f name s ∷ s3.trace } in
        let c = w.target_request_answer s4.trace in
        let end : (request_published event p s).1
            ≡ (after_target_request id event (callback_status c) s4).1 =
          ground (arith, e, k) in
        elim (after_target_request-cases id event c s4) [
          | inl (willing, q) ↦ inl (
            willing,
            ap (λ x. x.trace) (end ∙ q),
            (
              put_down event p s,
              ap (λ x. lookup id x.pending) (end ∙ q)
                  ∙ lookup-inserted id (owner_data (put_down event p s)) s.pending,
              refl,
              refl,
              refl,
            ),
          )
          | inr (unwilling, (same, ((t, q), gone))) ↦ inr (
            unwilling,
            ap (λ x. asks x.trace) end ∙ same,
            ((t, ap (λ x. x.trace) end ∙ q), ap (λ x. lookup id x.pending) end ∙ gone),
          )
        ]

    request_published-silent :
        (event : SelectionRequestEvent) (p : PublishedTarget) (s : X11State) (c : ClipbusStatus)
        → ¬ Willing c
        → (request_published event p s).1
          ≡ (after_target_request s.next_request_id event
              (callback_status c)
              (before_call event p s)).1
        → HostSilent event s (request_published event p s).1
    request_published-silent event p s c unwilling end =
        elim (after_target_request-cases s.next_request_id event c (before_call event p s)) [
          | inl (willing, q) ↦ elim (unwilling willing) [ ]
          | inr (_, (same, ((t, q), gone))) ↦ (
            ap (λ x. asks x.trace) end ∙ same,
            (
              (t, ap (λ x. x.trace) end ∙ q),
              ap (λ x. lookup s.next_request_id x.pending) end ∙ gone,
            ),
          )
        ]

    pub request_published-AskedFor :
        (event : SelectionRequestEvent) (p : PublishedTarget) (s : X11State)
        → AskedFor event p s (request_published event p s).1
    unfolding request_published request_as request_target callback_status
    request_published-AskedFor event p s = elim (Option-cases s.callbacks.target_request) [
      | inl e ↦ inr (
        inl e,
        request_published-silent event p s ClipbusStatus.unsupported (λ x. x) (ground (arith, e)),
      )
      | inr (f, e) ↦ elim (Option-cases (c_string p.name)) [
        | inl k ↦ inr (
          inr k,
          request_published-silent event p s ClipbusStatus.invalid_argument (λ x. x)
              (ground (arith, e, k)),
        )
        | inr (name, k) ↦ inl (f, name, e, k, request_published-asks event p s f name e k)
      ]
    ]
