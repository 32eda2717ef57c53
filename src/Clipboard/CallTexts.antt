-- ===== src/Clipboard/CallTexts.antt =====
-- The message that the error callback is handed.
use clipbus.Base.{◌≡◌, ◌∷◌, [], some, false, length, arith, refl}
use clipbus.Text.{Text, has_nul, replace_nul, has_nul-replace_nul, c_string-replace_nul}
use clipbus.Status.{Status, to_abi, discriminant}
use clipbus.Status.Codes.{callback_status-from_abi}
use clipbus.Clipboard.Types.{Callbacks, HostFn}
use clipbus.Clipboard.Notify.{notify_error}
use clipbus.Trace.{Act}

length-replace_nul : (s : Text) → length (replace_nul s) ≡ length s
unfolding replace_nul
length-replace_nul [] = refl
length-replace_nul (b ∷ bs) = ground (arith, length-replace_nul bs)

-- If the host gave an error callback, then every error reaches it, in one call: with the code that
-- the status has in the C enum, and with a message of the length of the source's that has no NUL inside.
pub notify_error-call :
    (cb : Callbacks) (status : Status) (message : Text) (f : HostFn)
    → cb.error ≡ some f
    → (m : Text) × (notify_error cb status message
        ≡ Act.call_error f cb.user (discriminant (to_abi status)) m ∷ [])
      × (has_nul m ≡ false)
      × (length m ≡ length message)
unfolding notify_error
notify_error-call cb status message f e = (
  replace_nul message,
  ground (arith, c_string-replace_nul message, callback_status-from_abi.1 status),
  has_nul-replace_nul message,
  length-replace_nul message,
)
