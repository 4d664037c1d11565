-- ===== src/Ble.antt =====
-- src/adapters/control/ble/bluez: the BLE transport, with D-Bus as parameters.
pub mod Assembler
pub mod Transport
