-- ===== src/Bus.antt =====
-- yugo/fleet_bus.py: the fleet-bus adapter.
pub mod Platform
pub mod Name
pub mod Timestamp
pub mod Envelope
pub mod Valid
pub mod Accepts
pub mod Baton
pub mod Pass
pub mod Tags
pub mod Spans
pub mod Ends
pub mod Strip
pub mod Frame
