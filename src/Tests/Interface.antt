-- ===== src/Tests/Interface.antt =====
-- The theorems about the handle and the C interface, applied.
use clipbus.Base.{ℕ, ok, err, ◌≢◌, ◌≡◌, ◌⊎◌, ◌∷◌, [], List, some, none, Option, false, length, refl}
use clipbus.Text.{Text, bytes, is_utf8, has_nul}
use clipbus.Status.{Status, to_abi, discriminant}
use clipbus.Trace.{Act}
use clipbus.Clipboard.Notify.{notify_error}
use clipbus.Clipboard.CallTexts.{notify_error-call}
use clipbus.Clipboard.{Options, TargetOffer, clear, request_targets}
use clipbus.Clipboard.Handle.{new_clipboard}
use clipbus.Clipboard.Lifecycle.{
  Order, Call, Balanced, after_calls, start_call, stop_call, send_call, ask_call, start_order,
  stop_order, send_order, statuses, promised_statuses, statuses-promised, new_clipboard-Balanced,
}
use clipbus.Abi.Parse.{
  ClipbusOptions, ClipbusBackend, ClipbusTargetOffer, parse_options, parse_offers,
}
use clipbus.Abi.Checks.{
  OptionsOf, parse_options-OptionsOf, OffersOf, named, SomeNameless, parse_offers-OffersOf,
}
use clipbus.Tests.Data.{fine, config, host}

abbrev calls : List Call
calls = start_call ∷ send_call clear ∷ ask_call request_targets ∷ stop_call ∷ start_call ∷ []

new_clipboard-Balanced_example :
    Balanced (after_calls ⦃sys = fine⦄ calls (new_clipboard config host))
new_clipboard-Balanced_example = new_clipboard-Balanced ⦃sys = fine⦄ config host calls

abbrev orders : List Order
orders = send_order clear ∷ start_order ∷ start_order ∷ stop_order ∷ []

statuses-promised_example :
    statuses ⦃sys = fine⦄ orders (new_clipboard config host)
    ≡ promised_statuses orders (new_clipboard config host).runtime
statuses-promised_example =
    statuses-promised ⦃sys = fine⦄
      (record { locks = λ _. refl; spawns = λ _. refl; receives = λ _. refl; joins = λ _. refl })
      orders (new_clipboard config host)

abbrev given : ClipbusOptions
given = record {
  abi_version = 4;
  backend = ClipbusBackend.auto;
  display_name = none;
  request_timeout_ms = 0;
  max_inline_bytes = 7;
  owner_window_name = some [];
}

abbrev understood : Options
understood = record {
  backend = clipbus.Clipboard.BackendKind.x11;
  display_name = none;
  request_timeout_ms = 30000;
  max_inline_bytes = 7;
  owner_window_name = bytes "clipbus";
}

parse_options-OptionsOf_example : OptionsOf given understood
unfolding parse_options is_utf8
parse_options-OptionsOf_example = parse_options-OptionsOf given understood refl

abbrev offers : Option (List ClipbusTargetOffer)
offers = some (
    record {
      native_target = some (bytes "TEXT");
      is_promised = 1;
      reserved0 = 0;
      reserved1 = 0;
      max_bytes = 5;
    }
    ∷ [])

parse_offers-OffersOf_example :
    ((os : List TargetOffer) × (parse_offers offers 1 ≡ ok os) × OffersOf (named offers 1) os)
    ⊎ ((parse_offers offers 1 ≡ err Status.invalid_argument)
        × (◌≢◌ {A = ℕ} 1 0)
        × ((offers ≡ none) ⊎ SomeNameless (named offers 1)))
parse_offers-OffersOf_example = parse_offers-OffersOf offers 1

notify_error-call_example :
    (m : Text) × (notify_error host Status.timeout (bytes "late")
      ≡ Act.call_error 14 9 (discriminant (to_abi Status.timeout)) m ∷ [])
    × (has_nul m ≡ false)
    × (length m ≡ length (bytes "late"))
notify_error-call_example = notify_error-call host Status.timeout (bytes "late") 14 refl
