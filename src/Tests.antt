-- ===== src/Tests.antt =====
-- Concrete runs: each theorem of the header's list at an input that its hypotheses allow.
mod Ble
mod Session
mod Media
mod Network
mod Control
mod Overlay
mod Adapters
mod Controller
