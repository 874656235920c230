-- ===== src/Coordinator.antt =====
-- yugo/coordinator.py and yugo/coordinator_state.py: the coordinator process.
pub mod Guard
pub mod Mode
pub mod Mounts
pub mod Relay
pub mod Delivery
pub mod Monitor
pub mod Outage
pub mod Heartbeat
pub mod State
pub mod Lock
