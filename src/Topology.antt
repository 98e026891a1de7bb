-- ===== src/Topology.antt =====
-- Signed topologies (internal/topology) and the manager that follows them
-- (internal/relay/topology_manager.go).
pub mod Bundle
pub mod Manager
pub mod Dcs
pub mod Source
