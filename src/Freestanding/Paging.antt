-- ===== src/Freestanding/Paging.antt =====
-- Page-table indices of an address: `pt_helper`, `address_to_pt` and `pt_to_address` of
-- freestanding/x86utils.cc.
pub mod Laws
use hypervi.Base.{ℕ, Field, field, get, put}

-- The bit-fields of `pt_helper`.
abbrev pub pt_field : Field
pt_field = field 12 9

abbrev pub pd_field : Field
pd_field = field 21 9

abbrev pub pdpt_field : Field
pdpt_field = field 30 9

abbrev pub pml4_field : Field
pml4_field = field 39 9

-- The four results of `address_to_pt`.
pub record PtIndices : Type 0 where
  pub pml4 : ℕ
  pub pdpt : ℕ
  pub pd : ℕ
  pub pt : ℕ

unfoldable pub address_to_pt : ℕ → PtIndices
unfolding get
address_to_pt address = record {
  pml4 = get pml4_field address;
  pdpt = get pdpt_field address;
  pd = get pd_field address;
  pt = get pt_field address;
}

unfoldable pub pt_to_address : ℕ → ℕ → ℕ → ℕ → ℕ
unfolding put
pt_to_address pml4 pdpt pd pt =
    put pt_field pt (put pd_field pd (put pdpt_field pdpt (put pml4_field pml4 0)))
