-- ===== src/Clipboard/Types.antt =====
-- The data types of src/clipboard.rs.
use clipbus.Base.{ℕ, Option, List, Bool}
use clipbus.Text.{Text}
use clipbus.Status.{Status}

pub data BackendKind : Type 0 where
  x11 fake : BackendKind

pub record Options : Type 0 where
  pub backend : BackendKind
  pub display_name : Option Text
  pub request_timeout_ms : ℕ
  pub max_inline_bytes : ℕ
  pub owner_window_name : Text

-- The address of a function of the host.
abbrev pub HostFn : Type 0
HostFn = ℕ

pub record Callbacks : Type 0 where
  pub user : ℕ
  pub target_request : Option HostFn
  pub targets_changed : Option HostFn
  pub owner_lost : Option HostFn
  pub error : Option HostFn
  pub target_list : Option HostFn
  pub target_data : Option HostFn
  pub stream_ready : Option HostFn

pub record TargetOffer : Type 0 where
  pub native_target : Text
  pub is_promised : Bool
  pub max_bytes : ℕ

-- `reply` names the one-place channel on which the backend answers.
pub data Command : Type 0 where
  publish_targets : List TargetOffer → Command
  clear : Command
  complete_request : (request_id : ℕ) → Status → (payload : Text) → Command
  begin_request_stream : (request_id estimated_bytes : ℕ) → Command
  write_request_stream : (request_id : ℕ) → (payload : Text) → Command
  end_request_stream : (request_id : ℕ) → Status → Command
  request_targets : (reply : ℕ) → Command
  request_target_data : (native_target : Text) → (max_bytes reply : ℕ) → Command
  stop : Command
