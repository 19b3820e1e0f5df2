-- ===== src/Tests.antt =====
-- Runs of the model, and its theorems at concrete inputs.
mod StorageRuns
mod NodeRuns
mod SigningRuns
mod ErasureRuns
mod RateRuns
mod FilesRuns
mod FleetRuns
mod SchemaRuns
mod MaintenanceRuns
mod ApiRuns
mod DownloadRuns
mod ConfigRuns
mod FilenameRuns
mod MiddlewareRuns
mod StoreRuns
mod WorkerRuns
mod ScriptRuns
