-- ===== src/Gateway.antt =====
-- internal/gateway: the control plane's pure functions over a snapshot of the cluster.
pub mod Objects
pub mod Claim
pub mod Backends
pub mod Bind
pub mod Conflicts
pub mod Conditions
pub mod Ports
pub mod Status
mod Tests
