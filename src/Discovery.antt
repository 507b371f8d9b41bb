-- ===== src/Discovery.antt =====
-- crates/synchrosonic-discovery: which devices are on the network, and how to reach them.
pub mod Address
pub mod Selection
pub mod Devices
pub mod Registry
pub mod RegistryLaws
pub mod Sweeps
mod Tests
