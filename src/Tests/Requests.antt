-- ===== src/Tests/Requests.antt =====
-- The theorems about single requests, applied.
use clipbus.Base.{
  ℕ, List, some, take, drop, ◌==◌, if◌then◌else◌, ok, ◌≤◌, ◌<◌, ◌≡◌, ◌⊎◌, ◌∷◌, [], none, false,
  lookup, Entries, refl, length, arith,
}
use clipbus.Text.{Text, bytes}
use clipbus.Status.{Status, is_ok}
use clipbus.X11.{World, answer, SelectionRequestEvent, X11State, owner_data, deadline}
use clipbus.X11.Listing.{posted}
use clipbus.X11.Connection.{response_property, inline_data_limit, allocate_request_id}
use clipbus.X11.Owner.{handle_selection_request, complete_request}
use clipbus.X11.Asked.{Answered, handle_selection_request-Answered}
use clipbus.X11.Events.{expire_pending}
use clipbus.X11.Timeouts.{expire_pending-Late, expire_pending-keeps}
use clipbus.X11.Answers.{Refused, Inline, Begun, complete_request-answers}
use clipbus.X11.Identities.{allocate_request_id-fresh}
use clipbus.X11.Sound.{IsSound}
use clipbus.Tests.Data.{calm, paste, waiting, connected}

abbrev asked : X11State
asked = connected ((7, owner_data waiting) ∷ [])

asked-IsSound : IsSound ⦃w = calm⦄ asked
asked-IsSound = record {
  next_pos = omega arith;
  next_le = omega arith;
  entries = ground arith;
  acts = tt;
}

complete_request-answers_example :
    let s' = (complete_request ⦃w = calm⦄ 7 Status.timeout (bytes "hello") asked).1 in
    let limit = inline_data_limit ⦃w = calm⦄ asked.options.max_inline_bytes in
    let payload = bytes "hello" in
    (((is_ok Status.timeout ≡ false) ⊎ (waiting.target.max_bytes < length payload))
      × Refused ⦃w = calm⦄ 7 waiting asked s')
    ⊎ ((Status.timeout ≡ Status.ok)
        × (length payload ≤ waiting.target.max_bytes)
        × (((length payload ≤ limit) × Inline ⦃w = calm⦄ 7 payload waiting asked s')
            ⊎ ((limit < length payload) × Begun ⦃w = calm⦄ 7 payload waiting asked s')))
unfolding lookup
complete_request-answers_example =
    complete_request-answers ⦃w = calm⦄ (λ t a. refl) 7 Status.timeout (bytes "hello") asked waiting
      refl

allocate_request_id-fresh_example :
    let (r, s') = allocate_request_id {E = Text} asked in
    (id : ℕ) × (r ≡ ok id)
    × (lookup id s'.pending ≡ none)
    × (id < s'.next_request_id)
    × IsSound ⦃w = calm⦄ s'
allocate_request_id-fresh_example =
    allocate_request_id-fresh ⦃w = calm⦄ asked asked-IsSound (omega arith)

abbrev publishing : X11State
publishing = record asked { published = (108, waiting.target) ∷ [] }

handle_selection_request-Answered_example :
    Answered ⦃w = calm⦄ paste publishing (handle_selection_request ⦃w = calm⦄ paste publishing).1
handle_selection_request-Answered_example =
    handle_selection_request-Answered ⦃w = calm⦄ (λ t a. refl) paste publishing

abbrev paste_targets : SelectionRequestEvent
paste_targets = record paste { target = 107 }

abbrev listed_values : List ℕ
listed_values =
    posted 40 (response_property paste_targets)
      (handle_selection_request ⦃w = calm⦄ paste_targets publishing).1.trace

abbrev name_at : ℕ → Text
name_at a =
    if a == 107
    then bytes "TARGETS"
    else if a == 110
    then bytes "TIMESTAMP"
    else if a == 112
    then bytes "SAVE_TARGETS"
    else bytes "text/xml"

-- a server in whose property 119 the values are those that `calm` was sent for TARGETS
abbrev listing : World
listing = record calm {
  name_of = λ _ a. answer (name_at a);
  property = λ t request. answer (record {
    type_ = 4;
    format = 32;
    bytes_after = 0;
    value = [];
    value32 = some (take request.long_length (drop request.long_offset listed_values));
  });
}

expire_pending-Late_example :
    Entries (λ k v. 0 < deadline v) (expire_pending ⦃w = calm⦄ asked).1.pending
expire_pending-Late_example = expire_pending-Late ⦃w = calm⦄ (λ t a. refl) asked

expire_pending-keeps_example :
    lookup 7 (expire_pending ⦃w = calm⦄ asked).1.pending ≡ lookup 7 asked.pending
unfolding deadline
expire_pending-keeps_example =
    expire_pending-keeps ⦃w = calm⦄ (λ t a. refl) asked 7 ((λ e. omega arith), tt)
