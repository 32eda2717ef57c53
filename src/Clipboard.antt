-- ===== src/Clipboard.antt =====
-- src/clipboard.rs: the configuration, the host's callbacks, the commands that the handle sends to
-- the backend thread, and (in the children) the handle itself and the calls of the callbacks.
mod Types
pub mod Notify
pub mod Handle
pub mod Lifecycle
pub mod CallTexts
pub use Types.*
