-- ===== src/Loader/Registers.antt =====
-- The registers of the processor that hold a descriptor table.
use hypervi.Base.{ℕ}

-- `segment_descriptor_register_64`
pub record TableRegister : Type 0 where
  pub limit : ℕ
  pub base_address : ℕ
