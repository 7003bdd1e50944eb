-- ===== src/Tests.antt =====
-- Runs of the definitions on concrete inputs.
mod JsonRuns
mod MemoryRuns
mod SqlRuns
mod WireRuns
mod DeliveredRuns
mod HttpRuns
mod DriverRuns
