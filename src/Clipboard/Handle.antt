-- ===== src/Clipboard/Handle.antt =====
-- struct Clipboard: the handle that the host holds, and its methods. The lock, the spawning and
-- joining of the backend thread and what comes back on a reply channel are the system's: each is
-- a function of what the handle has done so far.
use clipbus.Base.{
  ℕ, ◌∷◌, [], List, Option, none, some, Bool, true, false, Result, err, length, if◌then◌else◌, not,
}
use clipbus.Text.{Text}
use clipbus.Status.{Status, is_ok}
use clipbus.Clipboard.Types.{
  Options, Callbacks, TargetOffer, Command, publish_targets, clear, complete_request,
  begin_request_stream, write_request_stream, end_request_stream, request_targets,
  request_target_data, stop,
}

-- What a handle has done to the outside, the newest first.
pub data Deed : Type 0 where
  spawn : Options → Callbacks → Deed
  send : Command → Deed
  join : Deed
  wait_reply : (channel : ℕ) → Deed

pub record System : Type 0 where
  -- the mutex is not poisoned
  pub locks : List Deed → Bool
  pub spawns : List Deed → Bool
  -- the backend thread still holds the receiver
  pub receives : List Deed → Bool
  -- join() gives back no panic
  pub joins : List Deed → Bool
  -- recv_timeout(5 s): none if nothing came, or the other end is gone
  pub reply : List Deed → ℕ → Option (Result Status ℕ)

-- `runtime` says whether there is a RuntimeHandle.
pub record Clipboard : Type 0 where
  pub options : Options
  pub callbacks : Callbacks
  pub runtime : Bool
  pub deeds : List Deed

-- Clipboard::new
unfoldable pub new_clipboard : Options → Callbacks → Clipboard
new_clipboard options callbacks = record {
  options = options;
  callbacks = callbacks;
  runtime = false;
  deeds = [];
}

abbrev do_deed : Deed → Clipboard → Clipboard
do_deed d c = record c { deeds = d ∷ c.deeds }

module _ ⦃sys : System⦄ where
  unfoldable pub start : Clipboard → Status × Clipboard
  start c =
      if not (sys.locks c.deeds)
      then (Status.platform_error, c)
      else if c.runtime
      then (Status.already_started, c)
      else if sys.spawns c.deeds
      then (Status.ok, record c { runtime = true; deeds = spawn c.options c.callbacks ∷ c.deeds })
      else (Status.platform_error, c)

  -- the runtime is taken out first, and stays out if the join fails
  unfoldable pub stop_clipboard : Clipboard → Status × Clipboard
  stop_clipboard c =
      if not (sys.locks c.deeds)
      then (Status.platform_error, c)
      else if not c.runtime
      then (Status.ok, c)
      else let deeds : List Deed = join ∷ send stop ∷ c.deeds in
        (
          if sys.joins deeds then Status.ok else Status.platform_error,
          record c { runtime = false; deeds = deeds },
        )

  -- Clipboard::send. A command that cannot be delivered is gone.
  unfoldable pub send_command : Command → Clipboard → Status × Clipboard
  send_command command c =
      if not (sys.locks c.deeds)
      then (Status.platform_error, c)
      else if not c.runtime
      then (Status.not_started, c)
      else if sys.receives c.deeds
      then (Status.ok, do_deed (send command) c)
      else (Status.platform_error, c)

  abbrev or_timeout : Option (Result Status ℕ) → Result Status ℕ
  or_timeout none = err Status.timeout
  or_timeout (some r) = r

  -- a command with a reply: a fresh channel, and at most five seconds
  abbrev after_send : ℕ → Status × Clipboard → Result Status ℕ × Clipboard
  after_send channel (status, c) =
      if is_ok status
      then (or_timeout (sys.reply c.deeds channel), do_deed (wait_reply channel) c)
      else (err status, c)

  unfoldable pub ask_backend : (ℕ → Command) → Clipboard → Result Status ℕ × Clipboard
  unfolding send_command
  ask_backend command c = after_send (length c.deeds) (send_command (command (length c.deeds)) c)

  -- the methods
  unfoldable pub ask_targets : Clipboard → Result Status ℕ × Clipboard
  unfolding ask_backend
  ask_targets = ask_backend request_targets

  unfoldable pub ask_target_data : Text → ℕ → Clipboard → Result Status ℕ × Clipboard
  unfolding ask_backend
  ask_target_data native_target max_bytes =
      ask_backend (request_target_data native_target max_bytes)

  unfoldable pub publish : List TargetOffer → Clipboard → Status × Clipboard
  unfolding send_command
  publish offers = send_command (publish_targets offers)

  unfoldable pub clear_clipboard : Clipboard → Status × Clipboard
  unfolding send_command
  clear_clipboard = send_command clear

  unfoldable pub complete : ℕ → Status → Text → Clipboard → Status × Clipboard
  unfolding send_command
  complete request_id status payload = send_command (complete_request request_id status payload)

  unfoldable pub begin_stream : ℕ → ℕ → Clipboard → Status × Clipboard
  unfolding send_command
  begin_stream request_id estimated_bytes =
      send_command (begin_request_stream request_id estimated_bytes)

  unfoldable pub write_stream : ℕ → Text → Clipboard → Status × Clipboard
  unfolding send_command
  write_stream request_id payload = send_command (write_request_stream request_id payload)

  unfoldable pub end_stream : ℕ → Status → Clipboard → Status × Clipboard
  unfolding send_command
  end_stream request_id status = send_command (end_request_stream request_id status)
