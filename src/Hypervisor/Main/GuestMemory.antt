-- ===== src/Hypervisor/Main/GuestMemory.antt =====
-- The guest's memory once the hypervisor runs: the tables of ept.cc behind the pointer that
-- `cpu_init` wrote to the VMCS.
