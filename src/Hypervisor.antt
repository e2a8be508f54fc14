-- ===== src/Hypervisor.antt =====
-- The hypervisor binary, under hypervisor/.
pub mod Mtrr
pub mod Ept
pub mod Vmcs
pub mod VmxCheck
pub mod Cpu
pub mod Main
pub mod Host
