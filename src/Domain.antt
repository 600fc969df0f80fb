-- ===== src/Domain.antt =====
-- gateway/src/domain: the wire and storage types, and the pure helpers of the routes.
pub mod Types
pub mod Models
pub mod Filenames
pub mod Errors
pub mod Serialize
pub mod Probe
pub mod Sizing
pub mod Inputs
