-- ===== src/X11/Sound.antt =====
-- The invariant of the backend's state, and that every step of the thread keeps it. The children
-- prove it handler by handler.
mod Invariant
mod Rules
pub mod Connection
mod Incr
mod Owner
mod Events
pub mod Loop
mod Stream
mod External
pub use Invariant.{IsSound, Sound, Issued, Fits, Good, AllActs, queued_length}
