-- ===== src/Ota.antt =====
-- components/croniot/src/ota: the update policy and the record that it keeps.
pub mod Manifest
pub mod Policy
pub mod Blob
mod Tests
