-- ===== src/Graph.antt =====
-- internal/graph: references between stacks, the services that they connect, and the order in
-- which the services are operated on.
pub mod Nodes
pub mod Walk
pub mod References
pub mod Compile
pub mod Cycle
pub mod Order
pub mod Closure
pub mod Plan
