-- ===== src/X11/Run.antt =====
-- The start of the backend thread: `run` on an X server, and the fake backend of the tests.
use clipbus.Base.{
  ℕ, ◌∷◌, [], ◌++◌, List, String, Result, ok, err, max, saturating_add, if◌then◌else◌,
}
use clipbus.Text.{Text, bytes, is_ascii}
use clipbus.Status.{Status}
use clipbus.Clipboard.{Command, Callbacks, Options, request_targets, request_target_data, stop}
use clipbus.Clipboard.Notify.{notify_error, notify_target_list, notify_target_data}
use clipbus.Trace.{Act, Trace, Atom, Window}
use clipbus.X11.State.{X11State, Atoms}
use clipbus.X11.Server.{World}
use clipbus.X11.Monad.{M, Done, pure, lift, modify, ◌>>=◌, ◌>>◌, submit, ask, catch, context}
use clipbus.X11.Connection.{atom_atom, integer_atom, string_atom, wm_name_atom, intern, notify}
use clipbus.X11.Loop.{Polled, Received, Progress, finished, event_loop}

abbrev no_atoms : Atoms
no_atoms = record {
  clipboard = 0;
  targets = 0;
  timestamp = 0;
  save_targets = 0;
  incr = 0;
  net_wm_name = 0;
  utf8_string = 0;
  atom = 0;
  integer = 0;
}

-- The state before the window and the atoms are known; the setup reads neither from it.
unfoldable pub unconnected : Callbacks → Options → X11State
unconnected callbacks options = record {
  trace = [];
  callbacks = callbacks;
  options = options;
  window = 0;
  atoms = no_atoms;
  published = [];
  pending = [];
  next_request_id = 1;
}

module _ ⦃w : World⦄ where
  unfoldable pub select_xfixes_clipboard_events : Window → Atom → Done
  unfolding ask submit ◌>>=◌
  select_xfixes_clipboard_events window clipboard = do
    ask (bytes "XFixes unavailable for clipboard owner tracking")
        (bytes "XFixes unavailable for clipboard owner tracking") Act.xfixes_query_version
        w.xfixes_version
    submit "failed to subscribe to XFixes clipboard events"
        (Act.xfixes_select_selection_input window clipboard)

  unfoldable pub set_owner_window_name : Window → Atoms → Text → Done
  unfolding submit ◌>>=◌
  set_owner_window_name window atoms name = do
    submit "failed to set _NET_WM_NAME on clipboard window"
        (Act.change_property8 window atoms.net_wm_name atoms.utf8_string name)
    submit "failed to set WM_NAME on clipboard window" (
        Act.change_property8 window wm_name_atom
          (if is_ascii name then string_atom else atoms.utf8_string) name)

  unfoldable pub intern_atoms : M Text Atoms
  unfolding intern ◌>>=◌
  intern_atoms = do
    clipboard ← intern (bytes "CLIPBOARD")
    targets ← intern (bytes "TARGETS")
    timestamp ← intern (bytes "TIMESTAMP")
    save_targets ← intern (bytes "SAVE_TARGETS")
    incr ← intern (bytes "INCR")
    net_wm_name ← intern (bytes "_NET_WM_NAME")
    utf8_string ← intern (bytes "UTF8_STRING")
    pure (record {
      clipboard = clipboard;
      targets = targets;
      timestamp = timestamp;
      save_targets = save_targets;
      incr = incr;
      net_wm_name = net_wm_name;
      utf8_string = utf8_string;
      atom = atom_atom;
      integer = integer_atom;
    })

  abbrev pub warn_on_err : Result Text (Unit {0}) → Done
  warn_on_err (ok _) = pure tt
  warn_on_err (err e) = notify λ cb. notify_error cb Status.unsupported e

  -- if let Err(error) = select_xfixes_clipboard_events(..)
  unfoldable pub try_xfixes : Window → Atom → Done
  unfolding select_xfixes_clipboard_events notify catch ◌>>=◌
  try_xfixes window clipboard = do
    r ← catch (select_xfixes_clipboard_events window clipboard)
    warn_on_err r

  abbrev failed_with : {A : Type 0} → String → Result Text A → Result Text A
  failed_with c (ok a) = ok a
  failed_with c (err e) = err (context (bytes c) e)

  -- the state that run_x11 hands to its event loop
  unfoldable pub connect_state : {E : Type 0} → Window → Atoms → M E (Unit {0})
  unfolding modify
  connect_state window atoms = modify λ s. record s { window = window; atoms = atoms }

  -- run_x11 from the creation of the window up to its event loop
  unfoldable pub open_window : Options → Window → Window → Done
  unfolding submit intern_atoms set_owner_window_name try_xfixes connect_state ◌>>=◌
  open_window options root window = do
    submit "failed to create hidden X11 window" (Act.create_window window root)
    atoms ← intern_atoms
    set_owner_window_name window atoms options.owner_window_name
    try_xfixes window atoms.clipboard
    submit "failed to initialize X11 clipboard window" Act.flush
    connect_state window atoms

  unfoldable pub setup_from : Options → Done
  unfolding open_window context ◌>>=◌
  setup_from options = do
    root ← lift (failed_with "failed to connect to X11 display" (w.connect options.display_name))
    window ← lift (failed_with "failed to allocate X11 window id" w.generate_id)
    open_window options root window

  unfoldable pub run_x11 : Options → List (List Polled) → List Received → M Text Progress
  unfolding setup_from event_loop ◌>>=◌
  run_x11 options rounds received = setup_from options >> event_loop rounds received

  abbrev pub report_failure : Result Text Progress → M Text Progress
  report_failure (ok p) = pure p
  report_failure (err e) = do notify λ cb. notify_error cb Status.platform_error e; pure finished

  -- run: the thread from its start, over a schedule; the result is never an error
  unfoldable pub run :
      Options → Callbacks → List (List Polled) → List Received → Result Text Progress × X11State
  unfolding unconnected run_x11 notify pure
  run options callbacks rounds received =
      let (r, s) = run_x11 options rounds received (unconnected callbacks options) in
      report_failure r s

-- next_request_id.saturating_add(1).max(1)
abbrev fake_next : ℕ → ℕ
fake_next id = max (saturating_add id 1) 1

-- One command of the fake backend: the next id, and the acts, the newest first.
unfoldable pub fake_step : Callbacks → Command → ℕ × Trace → ℕ × Trace
fake_step cb (request_targets reply) (id, t) =
    (fake_next id, notify_target_list cb id Status.ok [] ++ (Act.send_reply reply (ok id) ∷ t))
fake_step cb (request_target_data native_target max_bytes reply) (id, t) = (
  fake_next id,
  notify_target_data cb id native_target Status.unsupported []
      ++ (Act.send_reply reply (ok id) ∷ t),
)
fake_step cb _ (id, t) = (id, t)

-- the loop of run_fake over the commands of the channel, up to a stop or the hang-up
unfoldable pub fake_loop : Callbacks → List Command → ℕ × Trace → ℕ × Trace
unfolding fake_step
fake_loop cb [] st = st
fake_loop cb (stop ∷ rest) st = st
fake_loop cb (c ∷ rest) st = fake_loop cb rest (fake_step cb c st)

unfoldable pub run_fake : Callbacks → List Command → Trace
unfolding fake_loop
run_fake cb commands = (fake_loop cb commands (1, [])).1
