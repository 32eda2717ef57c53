-- ===== src/Lib.antt =====
-- A model of clipbus, a clipboard library for X11 with a C interface, and what holds of it.
--
-- The program has three parts. The C interface (src/abi.rs) reads the C structs and calls a handle;
-- the handle (src/clipboard.rs) starts and stops a backend thread and sends it commands on a channel;
-- the backend thread (src/x11.rs) owns and reads the CLIPBOARD selection on an X server, and calls the
-- host's functions.
--
-- Status models Status and clipbus_status with their conversions; Text models byte strings: CString,
-- UTF-8, format!. Clipboard models src/clipboard.rs: Clipboard.Types its data, Clipboard.Notify the
-- calls of the host's functions, Clipboard.Handle struct Clipboard. Abi models src/abi.rs: Abi.Parse
-- the structs and their parsing, Abi.Calls the exported functions. X11 models src/x11.rs: X11.State
-- the struct X11State and the pending requests, X11.Connection its small methods, X11.Owner,
-- X11.Incr and X11.Stream the owner's side, X11.External the requestor's side, X11.Events the
-- dispatch of events and the timeouts, X11.Loop the event loop and X11.Run the start of the thread and
-- the fake backend. A definition has the name of the method that it models; the parts into which a
-- method is cut stand directly before it.
--
-- The other modules of X11, and Status.Codes, Clipboard.Lifecycle, Clipboard.CallTexts and Abi.Checks,
-- hold what is proved; each says at its top of what. Tests applies it at concrete inputs.
--
-- A method of X11State is an action of X11.Monad: it takes the state and gives a Result and the state.
-- Everything it does to the outside is recorded in a trace, the newest first (Trace). The X server,
-- the host's answer to a target request, the clock and the order in which a HashMap is walked are
-- the record World of X11.Server: functions of the trace, of which nothing is assumed but that a
-- walk meets each entry once. The handle's lock, thread and channel are the record System. The
-- command channel and the connection's events are a schedule, one list of events a round.
--
-- A HashMap is an association list. A usize and a u64 are natural numbers with saturating additions
-- cut at their maximum; an Instant is a number of milliseconds. There is no fuel: each loop runs over
-- a list, and the event loop over its rounds.
--
-- Not modelled: the memory behind C pointers (a pointer is an optional value), the panics of
-- catch_unwind, the sleeps' length, the build script, the C header and the packaging.
pub mod Base
pub mod Status
pub mod Text
pub mod Clipboard
pub mod Trace
pub mod X11
pub mod Abi
mod Tests
