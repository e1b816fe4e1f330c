-- ===== src/Examples.antt =====
-- Small inputs at which the theorems are applied.
pub mod Samples
mod Graphs
mod Files
mod Users
mod Configs
mod Subscriptions
mod Generators
