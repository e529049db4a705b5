-- ===== src/Ble.antt =====
-- main/ble_scanner.c: which beacon an advertisement belongs to, and near, far and absent.
pub mod Advert
pub mod Scanner
pub mod Hysteresis
mod Examples
