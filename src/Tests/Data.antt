-- ===== src/Tests/Data.antt =====
-- A server that accepts each request and knows few atoms, and states and inputs for it.
use mathlib.Core.List.Perm
use clipbus.Base.{Table, ℕ, zero, suc, [], ◌+◌, ok, none, some, true, length}
use clipbus.Text.{Text, bytes}
use clipbus.Status.{ClipbusStatus}
use clipbus.Clipboard.{Options, BackendKind, Callbacks, TargetOffer}
use clipbus.X11.Supply.{reply_to, consumed}
use clipbus.Clipboard.Handle.{System}
use clipbus.X11.{
  World, answer, SelectionRequestEvent, X11State, OwnerData, OwnerIncrData, ExternalIncrData,
  PendingRequest,
}

abbrev pub calm : World
calm = record {
  connect = λ _. ok 1;
  generate_id = ok 77;
  refusal = λ _ _. none;
  atom_of = λ _ name. answer (100 + length name);
  name_of = λ _ _. answer (bytes "text/plain");
  owner = λ _. answer 5;
  property = λ _ _.
      answer
        (record { type_ = 31; format = 8; bytes_after = 0; value = bytes "hello"; value32 = none });
  xfixes_version = λ _. answer tt;
  maximum_request_bytes = 1026;
  now = λ t. length t;
  target_request_answer = λ _. ClipbusStatus.ok;
  published_order = λ _ m. m;
  pending_order = λ _ m. m;
  published_order_perm = λ _ m. Perm.refl m;
  pending_order_perm = λ _ m. Perm.refl m;
}

abbrev pub host : Callbacks
host = record {
  user = 9;
  target_request = some 11;
  targets_changed = some 12;
  owner_lost = some 13;
  error = some 14;
  target_list = some 15;
  target_data = some 16;
  stream_ready = some 17;
}

abbrev pub config : Options
config = record {
  backend = BackendKind.x11;
  display_name = none;
  request_timeout_ms = 50;
  max_inline_bytes = 1;
  owner_window_name = bytes "w";
}

abbrev pub paste : SelectionRequestEvent
paste = record { time = 3; requestor = 40; selection = 109; target = 108; property = 0 }

abbrev pub offer : TargetOffer
offer = record { native_target = bytes "text/xml"; is_promised = true; max_bytes = 20 }

abbrev pub waiting : OwnerData
waiting = record {
  event = paste;
  target = record { atom = 108; name = bytes "text/xml"; max_bytes = 20 };
  deadline = 60;
}

abbrev pub reading : ExternalIncrData
reading = record {
  property = 119;
  native_target = bytes "text/xml";
  max_bytes = 10;
  payload = bytes "ab";
  deadline = 60;
}

abbrev pub sending : OwnerIncrData
sending = record {
  requestor = 40;
  property = 108;
  target_atom = 108;
  payload = bytes "hello";
  offset = 2;
  chunk_size = 2;
  deadline = 60;
}

-- a connected backend with these requests pending
abbrev pub connected : Table PendingRequest → X11State
connected pending = record {
  trace = [];
  callbacks = host;
  options = config;
  window = 77;
  atoms = record {
    clipboard = 109;
    targets = 107;
    timestamp = 110;
    save_targets = 112;
    incr = 104;
    net_wm_name = 112;
    utf8_string = 111;
    atom = 4;
    integer = 19;
  };
  published = [];
  pending = pending;
  next_request_id = 9;
}

abbrev pub chunk_at : ℕ → Text
chunk_at zero = bytes "cd"
chunk_at (suc zero) = bytes "efg"
chunk_at _ = []

-- a server in whose property 119 an owner puts its data by INCR
abbrev pub feeding : World
feeding = record calm {
  property = λ t request. answer (reply_to 31 request (chunk_at (consumed 77 119 chunk_at t)));
}

-- a system on which nothing fails
abbrev pub fine : System
fine = record {
  locks = λ _. true;
  spawns = λ _. true;
  receives = λ _. true;
  joins = λ _. true;
  reply = λ _ _. none;
}
