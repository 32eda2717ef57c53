-- ===== src/X11/Loop.antt =====
-- The event loop and the start of the thread. What the command channel and the connection deliver
-- is a schedule: for each round, the commands up to an empty channel, and the events of the poll.
use clipbus.Base.{ℕ, ◌∷◌, [], List}
use clipbus.Text.{Text, bytes}
use clipbus.Clipboard.{
  Command, publish_targets, clear, complete_request, begin_request_stream, write_request_stream,
  end_request_stream, request_targets, request_target_data, stop,
}
use clipbus.Trace.{Act}
use clipbus.X11.Server.{World}
use clipbus.X11.Monad.{M, Done, pure, throw, catch, context, ◌>>=◌, ◌>>◌, record_acts}
use clipbus.X11.Owner
use clipbus.X11.Stream
use clipbus.X11.External.{Requested, request_external_targets, request_external_target_data}
use clipbus.X11.Events.{Event, handle_event, expire_pending}

pub data LoopState : Type 0 where
  continue stop_loop : LoopState

-- What one call of try_recv finds in the channel; an empty list of these is the hang-up of the
-- sender.
pub data Received : Type 0 where
  command : Command → Received
  empty : Received

-- What one call of poll_for_event finds; a round's list ends where it finds nothing.
pub data Polled : Type 0 where
  event : Event → Polled
  poll_error : Text → Polled

module _ ⦃w : World⦄ where
  -- let _ = reply.send(..)
  unfoldable pub reply_with : ℕ → Requested → Done
  unfolding record_acts catch ◌>>=◌
  reply_with channel request = do r ← catch request; record_acts (Act.send_reply channel r ∷ [])

  -- the arms of the match in drain_commands that go on
  unfoldable pub run_command : Command → Done
  unfolding Owner.publish_targets Owner.clear_selection Owner.complete_request
      Stream.begin_request_stream Stream.write_request_stream Stream.end_request_stream reply_with
      request_external_targets request_external_target_data pure
  run_command (publish_targets targets) = Owner.publish_targets targets
  run_command clear = Owner.clear_selection
  run_command (complete_request request_id status payload) =
      Owner.complete_request request_id status payload
  run_command (begin_request_stream request_id estimated_bytes) =
      Stream.begin_request_stream request_id estimated_bytes
  run_command (write_request_stream request_id payload) =
      Stream.write_request_stream request_id payload
  run_command (end_request_stream request_id status) = Stream.end_request_stream request_id status
  run_command (request_targets reply) = reply_with reply request_external_targets
  run_command (request_target_data native_target max_bytes reply) =
      reply_with reply (request_external_target_data native_target max_bytes)
  run_command stop = pure tt

  -- Returns the rest of the channel, too.
  unfoldable pub drain_commands : List Received → M Text (LoopState × List Received)
  unfolding run_command ◌>>=◌
  drain_commands [] = pure (stop_loop, [])
  drain_commands (empty ∷ rest) = pure (continue, rest)
  drain_commands (command stop ∷ rest) = pure (stop_loop, rest)
  drain_commands (command c ∷ rest) = run_command c >> drain_commands rest

  unfoldable pub poll_events : List Polled → Done
  unfolding handle_event ◌>>=◌
  poll_events [] = pure tt
  poll_events (event e ∷ rest) = handle_event e >> poll_events rest
  poll_events (poll_error e ∷ rest) = throw (context (bytes "failed to poll X11 event") e)

-- Whether the schedule ran out before the loop came to its end.
pub data Progress : Type 0 where
  finished still_running : Progress

module _ ⦃w : World⦄ where
  -- the body of the loop
  unfoldable pub loop_round : List Polled → Done
  unfolding poll_events expire_pending record_acts ◌>>=◌
  loop_round polled = do poll_events polled; expire_pending; record_acts (Act.sleep ∷ [])

  -- after a round's commands: the round's events and the next round, or the end
  abbrev pub after_commands : Done → M Text Progress → LoopState → M Text Progress
  after_commands round next continue = round >> next
  after_commands round next stop_loop = Owner.clear_selection >> pure finished

  -- event_loop, by rounds; after them the loop may still be running
  unfoldable pub event_loop : List (List Polled) → List Received → M Text Progress
  unfolding drain_commands loop_round Owner.clear_selection ◌>>=◌
  event_loop [] received = do
    drained ← drain_commands received
    after_commands (pure tt) (pure still_running) drained.0
  event_loop (polled ∷ rounds) received = do
    drained ← drain_commands received
    after_commands (loop_round polled) (event_loop rounds drained.1) drained.0
