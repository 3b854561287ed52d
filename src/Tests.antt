-- ===== src/Tests.antt =====
-- Sample runs and the theorems applied to them.
mod HaData
mod HaBinding
mod HaProbe
mod BufferTable
mod Mobility
mod Encap
mod MobileNode
mod TunnelPool
mod ControlDaemon
mod DaemonData
mod DaemonTexts
