-- ===== src/Clipboard/Notify.antt =====
-- impl Callbacks: the notify functions. Each returns the calls of host functions that it makes: none
-- where the host gave no function, or where CString::new refuses the text.
use clipbus.Base.{ℕ, Option, none, some, List, [], ◌∷◌}
use clipbus.Text.{Text, c_string, replace_nul}
use clipbus.Status.{Status, to_abi, error_code}
use clipbus.Clipboard.Types.{Callbacks, HostFn}
use clipbus.Trace.{Act}

-- `if let Some(..)` and `let .. else { return }` over a callback and its text
abbrev call_if : Option HostFn → (HostFn → List Act) → List Act
call_if none make = []
call_if (some f) make = make f

abbrev with_text : Option Text → (Text → Act) → List Act
with_text none make = []
with_text (some t) make = make t ∷ []

unfoldable pub notify_targets_changed : Callbacks → List Act
notify_targets_changed cb = call_if cb.targets_changed λ f. Act.call_targets_changed f cb.user ∷ []

unfoldable pub notify_owner_lost : Callbacks → List Act
notify_owner_lost cb = call_if cb.owner_lost λ f. Act.call_owner_lost f cb.user ∷ []

unfoldable pub notify_error : Callbacks → Status → Text → List Act
notify_error cb status message = call_if cb.error λ f.
    with_text (c_string (replace_nul message)) λ m. Act.call_error f cb.user (error_code status) m

-- filter_map(|target| CString::new(target).ok())
unfoldable pub c_targets : List Text → List Text
c_targets [] = []
c_targets (t ∷ ts) = elim (c_string t) [ none ↦ c_targets ts | some c ↦ c ∷ c_targets ts ]

unfoldable pub notify_target_list : Callbacks → ℕ → Status → List Text → List Act
notify_target_list cb request_id status targets =
    call_if cb.target_list
      λ f. Act.call_target_list f cb.user request_id (to_abi status) (c_targets targets) ∷ []

unfoldable pub notify_target_data : Callbacks → ℕ → Text → Status → Text → List Act
notify_target_data cb request_id native_target status payload = call_if cb.target_data λ f.
    with_text (c_string native_target)
      λ t. Act.call_target_data f cb.user request_id t (to_abi status) payload

unfoldable pub notify_stream_ready : Callbacks → ℕ → Text → ℕ → ℕ → List Act
notify_stream_ready cb request_id native_target max_chunk_bytes timeout_ms =
    call_if cb.stream_ready λ f.
      with_text (c_string native_target)
        λ t. Act.call_stream_ready f cb.user request_id t max_chunk_bytes timeout_ms
