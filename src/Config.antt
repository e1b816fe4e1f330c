-- ===== src/Config.antt =====
-- internal/domain: the checks and defaults of the configuration that is loaded.
pub mod Values
pub mod Listen
pub mod Ports
pub mod Users
pub mod Inbounds
pub mod Resolve
pub mod Credentials
pub mod Names
pub mod Stacks
pub mod Checks
pub mod Clash
pub mod Merge
pub mod Global
