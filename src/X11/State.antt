-- ===== src/X11/State.antt =====
-- The data types of src/x11.rs.
use clipbus.Base.{ℕ, Bool, Option, Table}
use clipbus.Text.{Text}
use clipbus.Status.{Status}
use clipbus.Clipboard.{Callbacks, Options}
use clipbus.Trace.{Atom, Window, Trace}

pub record Atoms : Type 0 where
  pub clipboard : Atom
  pub targets : Atom
  pub timestamp : Atom
  pub save_targets : Atom
  pub incr : Atom
  pub net_wm_name : Atom
  pub utf8_string : Atom
  pub atom : Atom
  pub integer : Atom

pub record PublishedTarget : Type 0 where
  pub atom : Atom
  pub name : Text
  pub max_bytes : ℕ

-- The fields of x11rb's event that the backend reads.
pub record SelectionRequestEvent : Type 0 where
  pub time : ℕ
  pub requestor : Window
  pub selection : Atom
  pub target : Atom
  pub property : Atom

-- The variants of PendingRequest, a record for the fields of each. Instant is a number of
-- milliseconds.
pub record OwnerData : Type 0 where
  pub event : SelectionRequestEvent
  pub target : PublishedTarget
  pub deadline : ℕ

pub record ExternalTargets : Type 0 where
  pub property : Atom
  pub deadline : ℕ

pub record ExternalData : Type 0 where
  pub property : Atom
  pub target_atom : Atom
  pub native_target : Text
  pub max_bytes : ℕ
  pub deadline : ℕ

pub record ExternalIncrData : Type 0 where
  pub property : Atom
  pub native_target : Text
  pub max_bytes : ℕ
  pub payload : Text
  pub deadline : ℕ

pub record OwnerIncrData : Type 0 where
  pub requestor : Window
  pub property : Atom
  pub target_atom : Atom
  pub payload : Text
  pub offset : ℕ
  pub chunk_size : ℕ
  pub deadline : ℕ

pub record OwnerIncrStreamState : Type 0 where
  pub requestor : Window
  pub property : Atom
  pub target_atom : Atom
  pub native_target : Text
  pub max_bytes : ℕ
  pub written_bytes : ℕ
  pub chunk_size : ℕ
  pub ready : Bool
  pub queued_chunk : Option Text
  pub queued_end : Option Status
  pub deadline : ℕ

-- `owner_incr_stream` is also the conversion From<OwnerIncrStreamState>.
pub data PendingRequest : Type 0 where
  owner_data : OwnerData → PendingRequest
  external_targets : ExternalTargets → PendingRequest
  external_data : ExternalData → PendingRequest
  external_incr_data : ExternalIncrData → PendingRequest
  owner_incr_data : OwnerIncrData → PendingRequest
  owner_incr_stream : OwnerIncrStreamState → PendingRequest

-- PendingRequest::deadline
unfoldable pub deadline : PendingRequest → ℕ
deadline (owner_data r) = r.deadline
deadline (external_targets r) = r.deadline
deadline (external_data r) = r.deadline
deadline (external_incr_data r) = r.deadline
deadline (owner_incr_data r) = r.deadline
deadline (owner_incr_stream r) = r.deadline

-- The connection of the source is the trace here: what it answers is a function of the trace.
pub record X11State : Type 0 where
  pub trace : Trace
  pub callbacks : Callbacks
  pub options : Options
  pub window : Window
  pub atoms : Atoms
  pub published : Table PublishedTarget
  pub pending : Table PendingRequest
  pub next_request_id : ℕ
