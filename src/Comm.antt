-- ===== src/Comm.antt =====
-- components/croniot/src/comm: the message bus over the device's channels.
pub mod MessageBus
mod Tests
