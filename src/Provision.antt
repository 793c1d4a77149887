-- ===== src/Provision.antt =====
-- components/croniot/src/provision: the Wi-Fi network that a person types on the console.
pub mod Credentials
pub mod Verdict
pub mod Dialog
pub mod Editor
mod Tests
