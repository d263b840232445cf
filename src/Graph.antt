-- ===== src/Graph.antt =====
-- paa-service/src/services/graph.service.ts: the graph of users.
pub mod Graphology
pub mod Path
pub mod Service
pub mod Metrics
pub mod Hydrate
pub mod Transaction
mod Nodes
mod Pruned
mod Recomputed
mod Oldest
mod Entries
pub mod Evicted
pub mod Bounded
pub mod Sample
pub mod Triangles
mod Tests
pub mod Sweep
pub mod Shortest
