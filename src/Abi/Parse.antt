-- ===== src/Abi/Parse.antt =====
-- The C structs, and how create and publish_targets read them.
use clipbus.Base.{
  ℕ, ◌*◌, ◌∷◌, [], List, Option, none, some, Result, ok, err, ◌==◌, if◌then◌else◌, not, take,
}
use clipbus.Text.{Text, bytes, is_utf8}
use clipbus.Status.{Status}
use clipbus.Clipboard.{BackendKind, Options, Callbacks, HostFn, TargetOffer}

abbrev pub abi_version : ℕ
abi_version = 4

pub data ClipbusBackend : Type 0 where
  auto x11 fake : ClipbusBackend

pub record ClipbusOptions : Type 0 where
  pub abi_version : ℕ
  pub backend : ClipbusBackend
  pub display_name : Option Text
  pub request_timeout_ms : ℕ
  pub max_inline_bytes : ℕ
  pub owner_window_name : Option Text

pub record ClipbusTargetOffer : Type 0 where
  pub native_target : Option Text
  pub is_promised : ℕ
  pub reserved0 : ℕ
  pub reserved1 : ℕ
  pub max_bytes : ℕ

pub record ClipbusCallbacks : Type 0 where
  pub abi_version : ℕ
  pub target_request : Option HostFn
  pub targets_changed : Option HostFn
  pub owner_lost : Option HostFn
  pub error : Option HostFn
  pub target_list : Option HostFn
  pub target_data : Option HostFn
  pub stream_ready : Option HostFn

infixl 5 ◌>>=◌
abbrev ◌>>=◌ : {A B : Type 0} → Result Status A → (A → Result Status B) → Result Status B
ok a >>= f = f a
err e >>= f = err e

unfoldable pub str_from_ptr : Option Text → Result Status (Option Text)
str_from_ptr none = ok none
str_from_ptr (some s) = if is_utf8 s then ok (some s) else err Status.invalid_argument

abbrev backend_kind : ClipbusBackend → BackendKind
backend_kind auto = BackendKind.x11
backend_kind x11 = BackendKind.x11
backend_kind fake = BackendKind.fake

abbrev or_default : ℕ → ℕ → ℕ
or_default n d = if n == 0 then d else n

abbrev pub default_timeout_ms : ℕ
default_timeout_ms = 30000

abbrev pub default_inline_bytes : ℕ
default_inline_bytes = 16 * 1024 * 1024

-- .filter(|name| !name.is_empty()).unwrap_or_else(|| "clipbus")
unfoldable pub window_name : Option Text → Text
window_name none = bytes "clipbus"
window_name (some []) = bytes "clipbus"
window_name (some (b ∷ bs)) = b ∷ bs

unfoldable pub options_of : ClipbusOptions → Result Status Options
unfolding str_from_ptr window_name
options_of o = do
  display_name ← str_from_ptr o.display_name
  owner_window_name ← str_from_ptr o.owner_window_name
  ok (record {
    backend = backend_kind o.backend;
    display_name = display_name;
    request_timeout_ms = or_default o.request_timeout_ms default_timeout_ms;
    max_inline_bytes = or_default o.max_inline_bytes default_inline_bytes;
    owner_window_name = window_name owner_window_name;
  })

unfoldable pub parse_options : Option ClipbusOptions → Result Status Options
unfolding options_of
parse_options none = err Status.invalid_argument
parse_options (some o) =
    if o.abi_version == abi_version then options_of o else err Status.invalid_argument

unfoldable pub parse_callbacks : Option ClipbusCallbacks → ℕ → Result Status Callbacks
parse_callbacks none user = err Status.invalid_argument
parse_callbacks (some c) user =
    if c.abi_version == abi_version
    then ok (record {
      user = user;
      target_request = c.target_request;
      targets_changed = c.targets_changed;
      owner_lost = c.owner_lost;
      error = c.error;
      target_list = c.target_list;
      target_data = c.target_data;
      stream_ready = c.stream_ready;
    })
    else err Status.invalid_argument

-- a name that must be there, and not be empty
unfoldable pub required_name : Option Text → Result Status Text
required_name none = err Status.invalid_argument
required_name (some []) = err Status.invalid_argument
required_name (some (b ∷ bs)) = ok (b ∷ bs)

unfoldable pub parse_offer : ClipbusTargetOffer → Result Status TargetOffer
unfolding str_from_ptr required_name
parse_offer t = do
  name ← str_from_ptr t.native_target
  native_target ← required_name name
  ok (record {
    native_target = native_target;
    is_promised = not (t.is_promised == 0);
    max_bytes = t.max_bytes;
  })

unfoldable pub parse_each : List ClipbusTargetOffer → Result Status (List TargetOffer)
unfolding parse_offer
parse_each [] = ok []
parse_each (t ∷ ts) = do offer ← parse_offer t; offers ← parse_each ts; ok (offer ∷ offers)

unfoldable pub offers_at : Option (List ClipbusTargetOffer) → ℕ → Result Status (List TargetOffer)
unfolding parse_each
offers_at none count = err Status.invalid_argument
offers_at (some targets) count = parse_each (take count targets)

unfoldable pub parse_offers :
    Option (List ClipbusTargetOffer) → ℕ → Result Status (List TargetOffer)
unfolding offers_at
parse_offers targets count = if count == 0 then ok [] else offers_at targets count
