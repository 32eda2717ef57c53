-- ===== src/Status/Codes.antt =====
-- The status codes on their way through the C interface.
use clipbus.Base.{◌≡◌, arith}
use clipbus.Status.{
  Status, ClipbusStatus, to_abi, from_abi, callback_status, error_code, discriminant,
}

from_abi-to_abi_at : (s : Status) → from_abi (to_abi s) ≡ s
unfolding from_abi to_abi
from_abi-to_abi_at s = ground arith

to_abi-from_abi_at : (c : ClipbusStatus) → to_abi (from_abi c) ≡ c
unfolding from_abi to_abi
to_abi-from_abi_at c = ground arith

-- The conversions between Status and clipbus_status are inverse to each other.
pub from_abi-to_abi :
    ((s : Status) → from_abi (to_abi s) ≡ s) × ((c : ClipbusStatus) → to_abi (from_abi c) ≡ c)
from_abi-to_abi = (from_abi-to_abi_at, to_abi-from_abi_at)

callback_status-to_abi : (s : Status) → callback_status (to_abi s) ≡ s
unfolding callback_status to_abi
callback_status-to_abi s = ground arith

error_code-discriminant : (s : Status) → error_code s ≡ discriminant (to_abi s)
unfolding error_code discriminant to_abi
error_code-discriminant s = ground arith

-- The hand-written matches of Callbacks agree with the conversions: a status that the target
-- request callback returns is read as From reads it, and the code that the error callback gets is
-- the discriminant of the C enum.
pub callback_status-from_abi :
    ((c : ClipbusStatus) → callback_status c ≡ from_abi c)
    × ((s : Status) → error_code s ≡ discriminant (to_abi s))
unfolding callback_status from_abi
callback_status-from_abi = (λ c. ground arith, error_code-discriminant)
