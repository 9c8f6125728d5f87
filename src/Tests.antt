-- ===== src/Tests.antt =====
-- Runs of the models on concrete inputs.
mod Sample
mod AccountRuns
mod RuntimeRuns
mod SyncRuns
mod CatalogRuns
mod StoreRuns
mod ProxyRuns
mod SieveRuns
mod RefreshRuns
mod ReverseRuns
