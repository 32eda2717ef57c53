-- ===== src/X11/Connection.antt =====
-- The small methods of X11State that the handlers share: atoms, owners, request ids, limits,
-- deadlines and SelectionNotify.
use clipbus.Base.{
  ℕ, ◌+◌, ◌-◌, ◌*◌, ◌/◌, min, max, ◌++◌, ◌∷◌, List, String, Option, none, some, ok, u32_max,
  usize_max, saturating_add, ◌==◌, if◌then◌else◌,
}
use clipbus.Text.{Text, bytes, decimal, debug, from_utf8_lossy, c_string}
use clipbus.Status.{Status, callback_status}
use clipbus.Clipboard.{Callbacks, HostFn}
use clipbus.Trace.{Act, Atom, Window, Trace}
use clipbus.X11.State.{X11State, SelectionRequestEvent}
use clipbus.X11.Server.{World}
use clipbus.X11.Monad.{M, Done, pure, gets, ◌>>=◌, ◌>>◌, record_acts, submit, ask, now}

-- CLIPBUS_X11_CURRENT_TIME, CLIPBUS_X11_INCR_CHUNK_BYTES
abbrev pub current_time : ℕ
current_time = 0

abbrev pub incr_chunk_bytes : ℕ
incr_chunk_bytes = 256 * 1024

-- AtomEnum::NONE, ANY, ATOM, INTEGER, STRING and WM_NAME
abbrev pub none_atom : Atom
none_atom = 0

abbrev pub any_atom : Atom
any_atom = 0

abbrev pub atom_atom : Atom
atom_atom = 4

abbrev pub integer_atom : Atom
integer_atom = 19

abbrev pub string_atom : Atom
string_atom = 31

abbrev pub wm_name_atom : Atom
wm_name_atom = 39

-- the units of four bytes that hold this many bytes, as get_property's length
unfoldable pub property_units_for_bytes : ℕ → ℕ
property_units_for_bytes n = min (saturating_add n 3 / 4) u32_max

-- self.callbacks.notify_..(..)
unfoldable pub notify : {E : Type 0} → (Callbacks → List Act) → M E (Unit {0})
unfolding record_acts
notify calls s = record_acts (calls s.callbacks) s

abbrev pub next_id : X11State → X11State
next_id s = record s { next_request_id = max (saturating_add s.next_request_id 1) 1 }

unfoldable pub allocate_request_id : {E : Type 0} → M E ℕ
allocate_request_id s = (ok s.next_request_id, next_id s)

unfoldable pub response_property : SelectionRequestEvent → Atom
response_property event = if event.property == none_atom then event.target else event.property

module _ ⦃w : World⦄ where
  unfoldable pub intern : Text → M Text Atom
  unfolding ask
  intern name =
      ask (bytes "failed to intern atom " ++ debug name)
        (bytes "failed to read atom " ++ debug name) (Act.intern_atom name) (λ t. w.atom_of t name)

  -- intern(&self.conn, format!("{prefix}_{request_id}").as_bytes())
  unfoldable pub request_property_atom : ℕ → String → M Text Atom
  unfolding intern
  request_property_atom request_id prefix =
      intern (bytes prefix ++ (bytes "_" ++ decimal request_id))

  unfoldable pub atom_name : Atom → M Text Text
  unfolding ask ◌>>=◌
  atom_name atom = do
    name ←
        ask (bytes "failed to request atom name") (bytes "failed to read atom name")
          (Act.get_atom_name atom) (λ t. w.name_of t atom)
    pure (from_utf8_lossy name)

  -- self.conn.get_selection_owner(self.atoms.clipboard), under two messages
  unfoldable pub get_selection_owner : M Text Window
  unfolding ask ◌>>=◌
  get_selection_owner = do
    clipboard ← gets (λ s. s.atoms.clipboard)
    ask (bytes "failed to request CLIPBOARD owner") (bytes "failed to read CLIPBOARD owner")
        (Act.get_selection_owner clipboard) w.owner

  abbrev pub current_selection_owner : M Text Window
  current_selection_owner = get_selection_owner

  unfoldable pub max_change_property_payload_bytes : ℕ
  max_change_property_payload_bytes = max (w.maximum_request_bytes - 1024) 1

  unfoldable pub incr_chunk_size : ℕ
  unfolding max_change_property_payload_bytes
  incr_chunk_size = min incr_chunk_bytes max_change_property_payload_bytes

  -- for the state's max_inline_bytes
  unfoldable pub inline_data_limit : ℕ → ℕ
  unfolding max_change_property_payload_bytes
  inline_data_limit max_inline_bytes =
      min (min max_inline_bytes usize_max) max_change_property_payload_bytes

  -- Instant::now() + Duration::from_millis(self.options.request_timeout_ms)
  unfoldable pub owner_request_deadline : {E : Type 0} → M E ℕ
  unfolding now ◌>>=◌
  owner_request_deadline = do
    t ← now
    timeout ← gets (λ s. s.options.request_timeout_ms)
    pure (t + timeout)

  unfoldable pub send_selection_notify : SelectionRequestEvent → Atom → Done
  unfolding submit ◌>>=◌
  send_selection_notify event property = do
    submit "failed to send SelectionNotify" (
        Act.send_event event.requestor (record {
          time = event.time;
          requestor = event.requestor;
          selection = event.selection;
          target = event.target;
          property = property;
        }))
    submit "failed to flush SelectionNotify" Act.flush

  unfoldable pub fail_selection_request : SelectionRequestEvent → Done
  unfolding send_selection_notify
  fail_selection_request event = send_selection_notify event none_atom

  abbrev host_call : Option HostFn → Option Text → (HostFn → Text → Act) → Trace → Status × Trace
  host_call none name make t = (Status.unsupported, t)
  host_call (some f) none make t = (Status.invalid_argument, t)
  host_call (some f) (some name) make t =
      (callback_status (w.target_request_answer (make f name ∷ t)), make f name ∷ t)

  -- Callbacks::request_target: the host's answer, if it gave a function and the name has no NUL
  unfoldable pub request_target : {E : Type 0} → ℕ → Text → ℕ → ℕ → M E Status
  request_target request_id native_target max_inline_bytes timeout_ms s =
      let cb = s.callbacks in
      let (status, t) =
        host_call cb.target_request (c_string native_target)
          (λ f name. Act.call_target_request f cb.user request_id name max_inline_bytes timeout_ms)
          s.trace in
      (ok status, record s { trace = t })
