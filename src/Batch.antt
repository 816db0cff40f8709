-- ===== src/Batch.antt =====
-- Scoring of an uploaded file: parsing, scoring, the time series, the dashboard's payload.
pub mod Parse
pub mod Score
pub mod Timeseries
pub mod Payload
pub mod Upload
pub mod Template
