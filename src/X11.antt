-- ===== src/X11.antt =====
-- src/x11.rs: the backend thread.
mod State
mod Server
pub mod Monad
pub mod Connection
pub mod Incr
pub mod Owner
pub mod Stream
pub mod External
pub mod Events
pub mod Loop
pub mod Run
pub mod Accepts
pub mod Chunks
pub mod Transfer
pub mod Completion
pub mod Supply
pub mod Reading
pub mod Answers
pub mod Identities
pub mod Overdue
pub mod Timeouts
pub mod Waiting
pub mod Asked
pub mod Spent
pub mod Flow
pub mod Streaming
pub mod StreamStart
pub mod Publishing
pub mod FakeIds
pub mod Overrun
pub mod Relay
pub mod Listing
pub mod Draining
pub mod AfterStop
pub mod Endings
pub mod Sound
pub use State.*
unfoldable pub use State.{deadline}
pub use Server.*
