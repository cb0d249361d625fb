-- ===== src/Meter/Probe.antt =====
-- internal/lpmeter/probe.go: the diagnostic subcommand, apart from its choice of a device (Meter.Device).
pub mod Print
pub mod Devices
pub mod Recording
pub mod Link
pub mod Capture
pub mod Steps
pub mod Samples
pub mod Run
