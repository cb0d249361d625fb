-- ===== src/Meter.antt =====
-- internal/lpmeter: the meter's link layer.
pub mod Snapshot
pub mod Samples
pub mod Frame
pub mod Status
pub mod Decode
pub mod Command
pub mod Writes
pub mod Owner
pub mod Hidraw
pub mod Device
pub mod Simulator
pub mod Probe
