-- ===== src/Stats.antt =====
-- The statistics of the clusters: internal/clusterstats.
pub mod Collector
pub mod UiApi
pub mod Metrics
mod Examples
