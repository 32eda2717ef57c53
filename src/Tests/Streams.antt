-- ===== src/Tests/Streams.antt =====
-- The theorems about streams, applied.
use clipbus.Base.{List, none, ◌≤◌, ◌+◌, ◌≡◌, ◌∷◌, [], ◌++◌, lookup, refl, arith, false}
use clipbus.Text.{Text, bytes}
use clipbus.Status.{Status}
use clipbus.Trace.{Trace}
use clipbus.X11.{X11State, OwnerIncrStreamState, owner_data, owner_incr_stream}
use clipbus.X11.Connection.{response_property, incr_chunk_size}
use clipbus.X11.Stream.{begin_request_stream}
use clipbus.X11.Accepts.{Announced}
use clipbus.X11.Chunks.{writes}
use clipbus.X11.Spent.{written, spent}
use clipbus.X11.Flow.{
  StreamStep, chunk_given, end_given, deleted, deletions_in, stream_steps, stream_steps-written,
}
use clipbus.X11.Streaming.{session, session-writes}
use clipbus.X11.StreamStart.{begin_request_stream-writes}
use clipbus.Tests.Data.{calm, paste, waiting, connected}

abbrev stream : OwnerIncrStreamState
stream = record {
  requestor = 40;
  property = 108;
  target_atom = 108;
  native_target = bytes "text/xml";
  max_bytes = 20;
  written_bytes = 3;
  chunk_size = 2;
  ready = false;
  queued_chunk = none;
  queued_end = none;
  deadline = 60;
}

abbrev streaming : X11State
streaming = connected ((7, owner_incr_stream stream) ∷ [])

abbrev asked : X11State
asked = connected ((7, owner_data waiting) ∷ [])

abbrev steps : List StreamStep
steps = chunk_given (bytes "ab") ∷ deleted ∷ chunk_given (bytes "c") ∷ end_given Status.ok ∷ []

stream_steps-written_example :
    written (stream_steps ⦃w = calm⦄ 7 steps streaming).trace
    ≤ spent 7 streaming + deletions_in steps
stream_steps-written_example = stream_steps-written ⦃w = calm⦄ 7 steps streaming

abbrev chunks : List Text
chunks = bytes "ab" ∷ bytes "c" ∷ []

session-writes_example :
    let s' = stream_steps ⦃w = calm⦄ 7 (session chunks) streaming in
    (lookup 7 s'.pending ≡ none)
    × (writes 40 108 s'.trace ≡ writes 40 108 [] ++ (chunks ++ ([] ∷ [])))
unfolding lookup bytes
session-writes_example =
    session-writes ⦃w = calm⦄ (λ t a. refl) 7 chunks stream streaming (60, refl) (refl, refl, refl)
      (omega arith, omega arith, (omega arith, omega arith, tt)) (omega arith) (omega arith)

begin_request_stream-writes_example :
    let s1 = (begin_request_stream ⦃w = calm⦄ 7 3 asked).1 in
    let s' = stream_steps ⦃w = calm⦄ 7 (session chunks) s1 in
    let to_requestor : Trace → List Text = writes 40 (response_property paste) in
    Announced paste 104 3 [] s1.trace
    × (lookup 7 s'.pending ≡ none)
    × (to_requestor s'.trace ≡ to_requestor [] ++ (chunks ++ ([] ∷ [])))
unfolding lookup bytes incr_chunk_size
begin_request_stream-writes_example =
    begin_request_stream-writes ⦃w = calm⦄ (λ t a. refl) 7 3 chunks waiting asked refl (omega arith)
      (omega arith, omega arith, (omega arith, omega arith, tt)) (omega arith) (omega arith)
