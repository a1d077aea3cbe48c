-- ===== src/Tests.antt =====
-- Test data, the vectors of the repository's own tests, and the theorems at concrete inputs.
mod Data
mod Vectors
mod CodecRuns
mod LcRuns
mod MachineRuns
mod ChipRuns
mod NetworkRuns
mod ApiRuns
mod ClientRuns
mod AudioRuns
mod RptcRuns
mod ConfigRuns
mod SubscriberRuns
