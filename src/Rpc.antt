-- ===== src/Rpc.antt =====
-- src/l3_rpc: functions, the registry of a local endpoint, packet pools and remote endpoints.
pub mod Item
pub mod Registry
pub mod Pool
pub mod Remote
pub mod Endpoint
