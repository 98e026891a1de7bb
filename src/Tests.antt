-- ===== src/Tests.antt =====
-- Runs of the definitions on concrete inputs, and the theorems applied to them.
mod Sample
mod WebSocket
mod Pool
mod Topology
mod Control
mod Register
mod Handler
mod Config
