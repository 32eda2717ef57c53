-- ===== src/Trace.antt =====
-- What the backend thread does to the outside: requests on the X11 connection (x11rb), calls of the
-- host's functions, answers on reply channels, reads of the clock, sleeps. A trace holds these,
-- the newest first.
use clipbus.Base.{ℕ, Bool, List, Result}
use clipbus.Text.{Text}
use clipbus.Status.{Status, ClipbusStatus}
use clipbus.Clipboard.{HostFn}

-- Atom and Window of x11rb, u32 both
abbrev pub Atom : Type 0
Atom = ℕ

abbrev pub Window : Type 0
Window = ℕ

-- The fields of the event that the backend sends which are not constants.
pub record SelectionNotifyEvent : Type 0 where
  pub time : ℕ
  pub requestor : Window
  pub selection : Atom
  pub target : Atom
  pub property : Atom

pub record PropertyRequest : Type 0 where
  pub delete : Bool
  pub window : Window
  pub property : Atom
  pub type_ : Atom
  pub long_offset : ℕ
  pub long_length : ℕ

-- The mode of every property change is REPLACE.
pub data Act : Type 0 where
  create_window : (window root : Window) → Act
  intern_atom : Text → Act
  get_atom_name : Atom → Act
  get_selection_owner : Atom → Act
  set_selection_owner : (owner : Window) → (selection : Atom) → (time : ℕ) → Act
  convert_selection : (requestor : Window) → (selection target property : Atom) → (time : ℕ) → Act
  change_property8 : (window : Window) → (property type_ : Atom) → Text → Act
  change_property32 : (window : Window) → (property type_ : Atom) → List ℕ → Act
  delete_property : (window : Window) → (property : Atom) → Act
  get_property : PropertyRequest → Act
  -- the event mask is PROPERTY_CHANGE
  change_window_attributes : Window → Act
  send_event : (destination : Window) → SelectionNotifyEvent → Act
  xfixes_query_version : Act
  xfixes_select_selection_input : Window → Atom → Act
  flush : Act
  read_clock : Act
  sleep : Act
  send_reply : (channel : ℕ) → Result Status ℕ → Act
  call_target_request :
      HostFn
      → (user request_id : ℕ) → (native_target : Text) → (max_inline_bytes timeout_ms : ℕ) → Act
  call_targets_changed : HostFn → (user : ℕ) → Act
  call_owner_lost : HostFn → (user : ℕ) → Act
  call_error : HostFn → (user code : ℕ) → (message : Text) → Act
  call_target_list : HostFn → (user request_id : ℕ) → ClipbusStatus → List Text → Act
  call_target_data :
      HostFn
      → (user request_id : ℕ) → (native_target : Text) → ClipbusStatus
      → (payload : Text) → Act
  call_stream_ready :
      HostFn
      → (user request_id : ℕ) → (native_target : Text) → (max_chunk_bytes timeout_ms : ℕ) → Act

abbrev pub Trace : Type 0
Trace = List Act
