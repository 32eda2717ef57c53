-- ===== src/Tests/Backend.antt =====
-- The theorems about the backend thread, applied.
use clipbus.Base.{ℕ, ◌+◌, ok, List, ◌≤◌, ◌∷◌, [], ◌≡◌, ◌++◌, none, lookup, refl, length, arith}
use clipbus.Clipboard.{Command, clear, stop, request_targets}
use clipbus.Text.{Text, bytes}
use clipbus.Status.{Status, ClipbusStatus}
use clipbus.X11.{World, answer, X11State, owner_data, owner_incr_data, external_incr_data}
use clipbus.X11.Chunks.{writes, Chunks, concat}
use clipbus.X11.Owner.{complete_request, publish_targets}
use clipbus.X11.Accepts.{Accepts, Announced}
use clipbus.Trace.{Act, Trace}
use clipbus.X11.Supply.{calls, Serves, reply_to, consumed}
use clipbus.X11.Relay.{nth, sent, answered}
use clipbus.X11.Overrun.{new_values-over}
use clipbus.X11.Publishing.{last_offer, Offered, publish_targets-Offered}
use clipbus.X11.FakeIds.{replies, numbered, askers, run_fake-numbered}
use clipbus.X11.Reading.{new_values, new_values-read}
use clipbus.X11.AfterStop.{run-stop}
use clipbus.X11.Endings.{run-finished, event_loop-Emptied}
use clipbus.X11.Identities.{complete_request-lost}
use clipbus.X11.Transfer.{deletions, Delivered, deletions-Delivered}
use clipbus.X11.Completion.{complete_request-Delivered}
use clipbus.X11.Connection.{
  inline_data_limit, response_property, incr_chunk_size, max_change_property_payload_bytes,
}
use clipbus.X11.Events.{selection_request}
use clipbus.X11.Loop.{Polled, Received, event, command, empty, finished, event_loop}
use clipbus.X11.Run.{run, run_fake}
use clipbus.X11.Sound.{IsSound}
use clipbus.X11.Sound.Loop.{run-IsSound}
use clipbus.Tests.Data.{
  calm, host, config, paste, offer, waiting, connected, sending, reading, feeding, chunk_at,
}

abbrev rounds : List (List Polled)
rounds = (event (selection_request paste) ∷ []) ∷ []

abbrev received : List Received
received = command (Command.publish_targets (offer ∷ [])) ∷ empty ∷ []

name-Fits : length config.owner_window_name ≤ max_change_property_payload_bytes ⦃w = calm⦄
unfolding max_change_property_payload_bytes clipbus.Text.bytes
name-Fits = omega arith

run-IsSound_example : IsSound ⦃w = calm⦄ (run ⦃w = calm⦄ config host rounds received).1
run-IsSound_example = run-IsSound ⦃w = calm⦄ config host rounds received name-Fits

calm-Accepts : Accepts calm
calm-Accepts t a = refl

abbrev asked : X11State
asked = connected ((7, owner_data waiting) ∷ [])

complete_request-Delivered_example :
    let s1 : X11State = (complete_request ⦃w = calm⦄ 7 Status.ok (bytes "hello") asked).1 in
    let s' : X11State = deletions ⦃w = calm⦄ 6 7 s1 in
    Announced paste 104 (length (bytes "hello")) [] s1.trace
    × ((cs : List Text) × (writes 40 (response_property paste) s'.trace
          ≡ writes 40 (response_property paste) [] ++ (cs ++ ([] ∷ [])))
        × Chunks (incr_chunk_size ⦃w = calm⦄) cs
        × (concat cs ≡ bytes "hello")
        × (lookup 7 s'.pending ≡ none))
unfolding lookup bytes inline_data_limit
complete_request-Delivered_example =
    complete_request-Delivered ⦃w = calm⦄ calm-Accepts 6 7 (bytes "hello") asked waiting refl
      (omega arith) (omega arith) (omega arith) (omega arith)

abbrev sending_at : X11State
sending_at = connected ((7, owner_incr_data sending) ∷ [])

deletions-Delivered_example : Delivered ⦃w = calm⦄ 4 7 sending_at sending
unfolding lookup bytes
deletions-Delivered_example =
    deletions-Delivered ⦃w = calm⦄ calm-Accepts 4 7 sending_at sending refl (omega arith)
      (omega arith) (omega arith) (omega arith)

abbrev reading_at : X11State
reading_at = connected ((7, external_incr_data reading) ∷ [])

feeding-Serves : Serves feeding 77 119 31 chunk_at
feeding-Serves t request h k l = refl

abbrev fed : List Text
fed = bytes "cd" ∷ bytes "efg" ∷ []

new_values-read_example :
    let s' = new_values ⦃w = feeding⦄ fed 7 reading_at in
    let call =
      Act.call_target_data 16 9 7 (bytes "text/xml") ClipbusStatus.ok (bytes "ab" ++ concat fed) in
    (lookup 7 s'.pending ≡ none)
    × (calls s'.trace ≡ call ∷ calls [])
    × ((t : Trace) × (s'.trace ≡ call ∷ t))
unfolding lookup bytes clipbus.Text.c_string
new_values-read_example =
    new_values-read ⦃w = feeding⦄ 31 chunk_at fed 7 reading_at reading 16 (bytes "text/xml")
      feeding-Serves (refl, omega arith, (refl, omega arith, refl)) refl (omega arith) (omega arith)
      (refl, refl)

abbrev relayed_values : ℕ → Text
relayed_values = nth (sent waiting asked (answered calm 6 7 (bytes "hello") asked))

-- a server in whose property 119 the values are those that `calm` was sent for "hello"
abbrev relaying : World
relaying = record calm {
  property =
      λ t request. answer (reply_to 31 request (relayed_values (consumed 77 119 relayed_values t)));
}

abbrev fresh_read : X11State
fresh_read = connected ((7, external_incr_data (record reading { payload = [] })) ∷ [])

run-finished_example : (run ⦃w = calm⦄ config host rounds received).0 ≡ ok finished
run-finished_example = run-finished ⦃w = calm⦄ config host rounds received (omega arith)

-- two rounds with a publication, a stop in the second, and commands or nothing behind it
run-stop_example :
    run ⦃w = calm⦄ config host rounds
      (received ++ (command stop ∷ command clear ∷ command (request_targets 5) ∷ []))
    ≡ run ⦃w = calm⦄ config host rounds (received ++ (command stop ∷ []))
run-stop_example =
    run-stop ⦃w = calm⦄ config host rounds received
      (command clear ∷ command (request_targets 5) ∷ []) []

complete_request-lost_example :
    let s' =
      deletions ⦃w = calm⦄ 3 7 (complete_request ⦃w = calm⦄ 7 Status.ok (bytes "x") sending_at).1 in
    (lookup 7 s'.pending ≡ none) × (s'.trace ≡ sending_at.trace)
unfolding lookup
complete_request-lost_example =
    complete_request-lost ⦃w = calm⦄ 3 7 Status.ok (bytes "x") sending_at sending refl

event_loop-Emptied_example :
    let s' = (event_loop ⦃w = calm⦄ [] (command stop ∷ []) asked).1 in
    (s'.pending ≡ []) × (s'.published ≡ [])
unfolding event_loop
event_loop-Emptied_example = event_loop-Emptied ⦃w = calm⦄ [] (command stop ∷ []) asked refl

abbrev small_at : X11State
small_at = connected ((7, external_incr_data (record reading { max_bytes = 5 })) ∷ [])

new_values-over_example :
    let s' = new_values ⦃w = feeding⦄ fed 7 small_at in
    (lookup 7 s'.pending ≡ none)
    × (calls s'.trace
        ≡ Act.call_target_data 16 9 7 (bytes "text/xml") ClipbusStatus.unsupported [] ∷ calls [])
unfolding lookup bytes clipbus.Text.c_string
new_values-over_example =
    new_values-over ⦃w = feeding⦄ 31 chunk_at fed 7 small_at (record reading { max_bytes = 5 }) 16
      (bytes "text/xml") feeding-Serves (refl, omega arith, (refl, omega arith, refl)) refl
      (omega arith) (omega arith) (omega arith) (refl, refl)

publish_targets-Offered_example :
    let s' = (publish_targets ⦃w = calm⦄ (offer ∷ offer ∷ []) asked).1 in
    Offered 1 108
      (last_offer (λ name. 100 + length name) 108 (offer ∷ offer ∷ []))
      (lookup 108 s'.published)
    × ((t : Trace) × (s'.trace ≡ Act.flush ∷ Act.set_selection_owner 77 109 0 ∷ t))
publish_targets-Offered_example =
    publish_targets-Offered ⦃w = calm⦄ calm-Accepts (λ name. 100 + length name) (λ t name. refl) 108
      (offer ∷ offer ∷ []) asked

run_fake-numbered_example :
    replies (run_fake host (request_targets 5 ∷ clear ∷ request_targets 6 ∷ stop ∷ []))
    ≡ numbered 1 (askers (request_targets 5 ∷ clear ∷ request_targets 6 ∷ stop ∷ []))
run_fake-numbered_example =
    run_fake-numbered host (request_targets 5 ∷ clear ∷ request_targets 6 ∷ stop ∷ []) (omega arith)
