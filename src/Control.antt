-- ===== src/Control.antt =====
-- src/app/control: the command dispatcher and the handlers. The messages are those of the
-- protocol buffers that the repository takes from its submodule: records with the fields that the
-- code reads and sets. Logging is left out.
pub mod Message
pub mod Dispatcher
pub mod RecordingHandler
pub mod MatchHandler
pub mod MatchState
pub mod RawCapture
pub mod StreamingHandler
pub mod WifiDirect
pub mod UnitName
pub mod SessionHandler
pub mod OverlayHandler
pub mod Download
pub mod Device
