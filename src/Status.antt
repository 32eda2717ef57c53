-- ===== src/Status.antt =====
-- The status codes: the crate's Status (src/clipboard.rs), the C enum clipbus_status (src/abi.rs),
-- the conversions between them, and the names and numbers that leave through the C interface.
pub mod Codes
use Prim.Native.String.{String}
use clipbus.Base.{ℕ, Bool, true, false}

pub data Status : Type 0 where
  ok pending unsupported timeout platform_error invalid_argument : Status
  already_started not_started not_found panic : Status

pub data ClipbusStatus : Type 0 where
  ok pending unsupported timeout platform_error invalid_argument : ClipbusStatus
  already_started not_started not_found panic : ClipbusStatus

-- impl From<Status> for clipbus_status
unfoldable pub to_abi : Status → ClipbusStatus
to_abi Status.ok = ClipbusStatus.ok
to_abi Status.pending = ClipbusStatus.pending
to_abi Status.unsupported = ClipbusStatus.unsupported
to_abi Status.timeout = ClipbusStatus.timeout
to_abi Status.platform_error = ClipbusStatus.platform_error
to_abi Status.invalid_argument = ClipbusStatus.invalid_argument
to_abi Status.already_started = ClipbusStatus.already_started
to_abi Status.not_started = ClipbusStatus.not_started
to_abi Status.not_found = ClipbusStatus.not_found
to_abi Status.panic = ClipbusStatus.panic

-- impl From<clipbus_status> for Status
unfoldable pub from_abi : ClipbusStatus → Status
from_abi ClipbusStatus.ok = Status.ok
from_abi ClipbusStatus.pending = Status.pending
from_abi ClipbusStatus.unsupported = Status.unsupported
from_abi ClipbusStatus.timeout = Status.timeout
from_abi ClipbusStatus.platform_error = Status.platform_error
from_abi ClipbusStatus.invalid_argument = Status.invalid_argument
from_abi ClipbusStatus.already_started = Status.already_started
from_abi ClipbusStatus.not_started = Status.not_started
from_abi ClipbusStatus.not_found = Status.not_found
from_abi ClipbusStatus.panic = Status.panic

-- the match on the host's answer in Callbacks::request_target
unfoldable pub callback_status : ClipbusStatus → Status
callback_status ClipbusStatus.ok = Status.ok
callback_status ClipbusStatus.pending = Status.pending
callback_status ClipbusStatus.unsupported = Status.unsupported
callback_status ClipbusStatus.timeout = Status.timeout
callback_status ClipbusStatus.platform_error = Status.platform_error
callback_status ClipbusStatus.invalid_argument = Status.invalid_argument
callback_status ClipbusStatus.already_started = Status.already_started
callback_status ClipbusStatus.not_started = Status.not_started
callback_status ClipbusStatus.not_found = Status.not_found
callback_status ClipbusStatus.panic = Status.panic

-- the code that Callbacks::notify_error hands to the error callback
unfoldable pub error_code : Status → ℕ
error_code Status.ok = 0
error_code Status.pending = 1
error_code Status.unsupported = 2
error_code Status.timeout = 3
error_code Status.platform_error = 4
error_code Status.invalid_argument = 5
error_code Status.already_started = 6
error_code Status.not_started = 7
error_code Status.not_found = 8
error_code Status.panic = 9

-- the discriminants of the C enum
unfoldable pub discriminant : ClipbusStatus → ℕ
discriminant ClipbusStatus.ok = 0
discriminant ClipbusStatus.pending = 1
discriminant ClipbusStatus.unsupported = 2
discriminant ClipbusStatus.timeout = 3
discriminant ClipbusStatus.platform_error = 4
discriminant ClipbusStatus.invalid_argument = 5
discriminant ClipbusStatus.already_started = 6
discriminant ClipbusStatus.not_started = 7
discriminant ClipbusStatus.not_found = 8
discriminant ClipbusStatus.panic = 9

-- clipbus_status_name
unfoldable pub status_name : ClipbusStatus → String
status_name ClipbusStatus.ok = "ok"
status_name ClipbusStatus.pending = "pending"
status_name ClipbusStatus.unsupported = "unsupported"
status_name ClipbusStatus.timeout = "timeout"
status_name ClipbusStatus.platform_error = "platform_error"
status_name ClipbusStatus.invalid_argument = "invalid_argument"
status_name ClipbusStatus.already_started = "already_started"
status_name ClipbusStatus.not_started = "not_started"
status_name ClipbusStatus.not_found = "not_found"
status_name ClipbusStatus.panic = "panic"

-- `status == Status::Ok`
abbrev pub is_ok : Status → Bool
is_ok Status.ok = true
is_ok _ = false
