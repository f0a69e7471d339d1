-- ===== src/Tests.antt =====
-- The development at concrete inputs: instances of the parameters, runs of the code, and each
-- result applied where its conditions hold.
pub mod Parts
mod Instance
mod HttpRuns
mod SystemRuns
mod ModelRuns
mod StoreRuns
mod ServiceRuns
mod HandlerRuns
mod ApiRuns
mod ServerRuns
mod ConfigRuns
mod MainRuns
mod LimitRuns
mod FixtureRuns
mod UploadRuns
