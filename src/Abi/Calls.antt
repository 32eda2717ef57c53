-- ===== src/Abi/Calls.antt =====
-- The exported functions. Each takes the handle behind its pointer, and gives the status and the
-- handle as the call leaves it.
use clipbus.Base.{
  ℕ, ◌∷◌, [], List, Option, none, some, Bool, true, false, Result, ok, err, ◌==◌, if◌then◌else◌,
  not, take, is_some, ◌||◌, ◌&&◌, ltb,
}
use clipbus.Text.{Text}
use clipbus.Status.{Status, ClipbusStatus, to_abi, from_abi}
use clipbus.Clipboard.Handle
use clipbus.Clipboard.Handle.{Clipboard, System, new_clipboard}
use clipbus.Abi.Parse.{
  ClipbusOptions, ClipbusCallbacks, ClipbusTargetOffer, parse_options, parse_callbacks,
  parse_offers, str_from_ptr,
}

-- catch_unwind: what the closure returned, or none if it panicked
unfoldable pub convert_result : Option Status → ClipbusStatus
unfolding to_abi
convert_result (some status) = to_abi status
convert_result none = ClipbusStatus.panic

abbrev invalid : ClipbusStatus
invalid = ClipbusStatus.invalid_argument

-- `out`: none if the pointer is null; else what it points at afterwards, none for a null handle
unfoldable pub create :
    Option ClipbusOptions
    → Option ClipbusCallbacks
    → ℕ
    → (out_given : Bool) → ClipbusStatus × Option Clipboard
unfolding convert_result parse_options parse_callbacks new_clipboard
create options callbacks user false = (convert_result (some Status.invalid_argument), none)
create options callbacks user true = elim (parse_options options) [
  | err status ↦ (convert_result (some status), none)
  | ok o ↦ elim (parse_callbacks callbacks user) [
    | err status ↦ (convert_result (some status), none)
    | ok cb ↦ (convert_result (some Status.ok), some (new_clipboard o cb))
  ]
]

-- the status of a call on the handle, and the handle behind its pointer again
abbrev on_handle :
    Option Clipboard → (Clipboard → Status × Clipboard) → ClipbusStatus × Option Clipboard
on_handle none call = (convert_result (some Status.invalid_argument), none)
on_handle (some c) call = let (status, c') = call c in (convert_result (some status), some c')

abbrev refuse : Clipboard → Status × Clipboard
refuse c = (Status.invalid_argument, c)

abbrev id_written : Result Status ℕ × Clipboard → ClipbusStatus × Option ℕ × Option Clipboard
id_written (ok id, c) = (convert_result (some Status.ok), some id, some c)
id_written (err status, c) = (convert_result (some status), none, some c)

-- a call that writes an id through its out pointer if it succeeds
abbrev on_handle_id :
    Bool
    → Option Clipboard
    → (Clipboard → Result Status ℕ × Clipboard)
    → ClipbusStatus × Option ℕ × Option Clipboard
on_handle_id false handle call = (convert_result (some Status.invalid_argument), none, handle)
on_handle_id true none call = (convert_result (some Status.invalid_argument), none, none)
on_handle_id true (some c) call = id_written (call c)

-- the name that request_target_data takes: given, UTF-8 and not empty
unfoldable pub target_name : Option Text → Option Text
unfolding str_from_ptr
target_name pointer = elim (str_from_ptr pointer) [ ok (some (b ∷ bs)) ↦ some (b ∷ bs) | _ ↦ none ]

abbrev or_nothing : Option Text → Text
or_nothing none = []
or_nothing (some t) = t

-- slice::from_raw_parts(data, data_len).to_vec(), or nothing if the length is 0
unfoldable pub payload_at : Option Text → ℕ → Text
payload_at pointer len = take len (or_nothing pointer)

module _ ⦃sys : System⦄ where
  unfoldable pub start : Option Clipboard → ClipbusStatus × Option Clipboard
  unfolding Handle.start convert_result
  start handle = on_handle handle Handle.start

  unfoldable pub stop : Option Clipboard → ClipbusStatus × Option Clipboard
  unfolding Handle.stop_clipboard convert_result
  stop handle = on_handle handle Handle.stop_clipboard

  -- clipbus_clipboard_destroy: the box is freed after a stop; what remains are its deeds
  unfoldable pub destroy : Option Clipboard → Option Clipboard
  unfolding Handle.stop_clipboard
  destroy none = none
  destroy (some c) = some (Handle.stop_clipboard c).1

  unfoldable pub publish_targets :
      Option Clipboard → Option (List ClipbusTargetOffer) → ℕ → ClipbusStatus × Option Clipboard
  unfolding parse_offers Handle.publish convert_result
  publish_targets handle targets count = on_handle handle λ c. elim (parse_offers targets count) [
    | ok offers ↦ Handle.publish offers c
    | err status ↦ (status, c)
  ]

  unfoldable pub clear : Option Clipboard → ClipbusStatus × Option Clipboard
  unfolding Handle.clear_clipboard convert_result
  clear handle = on_handle handle Handle.clear_clipboard

  -- `out_given`: the out pointer is not null
  unfoldable pub request_targets :
      Option Clipboard → (out_given : Bool) → ClipbusStatus × Option ℕ × Option Clipboard
  unfolding Handle.ask_targets convert_result
  request_targets handle out_given = on_handle_id out_given handle Handle.ask_targets

  unfoldable pub request_target_data :
      Option Clipboard
      → Option Text
      → ℕ
      → (out_given : Bool) → ClipbusStatus × Option ℕ × Option Clipboard
  unfolding target_name Handle.ask_target_data convert_result
  request_target_data handle native_target max_bytes out_given = on_handle_id out_given handle λ c.
      elim (target_name native_target) [
        | none ↦ (err Status.invalid_argument, c)
        | some name ↦ Handle.ask_target_data name max_bytes c
      ]

  unfoldable pub complete_request :
      Option Clipboard → ℕ → ClipbusStatus → Option Text → ℕ → ClipbusStatus × Option Clipboard
  unfolding payload_at from_abi Handle.complete convert_result
  complete_request handle request_id status pointer len = on_handle handle λ c.
      if ltb 0 len && not (is_some pointer)
      then refuse c
      else Handle.complete request_id (from_abi status) (payload_at pointer len) c

  unfoldable pub begin_request_stream : Option Clipboard → ℕ → ℕ → ClipbusStatus × Option Clipboard
  unfolding Handle.begin_stream convert_result
  begin_request_stream handle request_id estimated_bytes =
      on_handle handle (Handle.begin_stream request_id estimated_bytes)

  unfoldable pub write_request_stream :
      Option Clipboard → ℕ → Option Text → ℕ → ClipbusStatus × Option Clipboard
  unfolding payload_at Handle.write_stream convert_result
  write_request_stream handle request_id pointer len = on_handle handle λ c.
      if (len == 0) || not (is_some pointer)
      then refuse c
      else Handle.write_stream request_id (payload_at pointer len) c

  unfoldable pub end_request_stream :
      Option Clipboard → ℕ → ClipbusStatus → ClipbusStatus × Option Clipboard
  unfolding from_abi Handle.end_stream convert_result
  end_request_stream handle request_id status =
      on_handle handle (Handle.end_stream request_id (from_abi status))
