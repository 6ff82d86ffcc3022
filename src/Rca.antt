-- ===== src/Rca.antt =====
-- internal/rca: the graph of causes on which the analysis of an incident walks.
pub mod Graph
pub mod Ontology
pub mod Durations
pub mod Events
pub mod Evidence
pub mod Incident
pub mod Engine
pub mod Defaults
mod Samples
