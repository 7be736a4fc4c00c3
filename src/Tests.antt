-- ===== src/Tests.antt =====
-- Runs of the model at concrete inputs, at which the theorems' hypotheses hold.
pub mod SumCode
pub mod RepeatCode
pub mod FecRuns
pub mod GroupRuns
mod StreamRuns
pub mod TcpRuns
pub mod SetupRuns
pub mod FilterRuns
pub mod FaketcpRuns
mod CaptureRuns
mod OpeningRuns
