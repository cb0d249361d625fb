-- ===== src/Tests.antt =====
-- Runs of the model on concrete inputs.
mod Samples
mod HubRuns
mod MeterRuns
mod SimulatorRuns
mod WireRuns
mod ServerRuns
mod UpdateRuns
mod PipelineRuns
mod HidRuns
mod PumpRuns
mod LeakRuns
mod InterleavedRuns
mod ProbeRuns
