-- ===== src/Freestanding/Paging/Laws.antt =====
-- Addresses and indices: the two conversions are inverse.
use hypervi.Base.{ℕ, ◌+◌, ◌*◌, ◌%◌, ◌^◌, ◌<◌, ◌≡◌, arith}
use hypervi.Freestanding.Paging.{PtIndices, address_to_pt, pt_to_address}

-- The address of four indices, as a sum.
pub pt_to_address_sum :
    (pml4 pdpt pd pt : ℕ)
    → pt_to_address pml4 pdpt pd pt
      ≡ pml4 % 512 * 2 ^ 39 + pdpt % 512 * 2 ^ 30 + pd % 512 * 2 ^ 21 + pt % 512 * 2 ^ 12
unfolding pt_to_address
pt_to_address_sum pml4 pdpt pd pt = omega arith

-- Indices below 512 come back from the address that is built of them.
pub address_to_pt-pt_to_address :
    (i : PtIndices)
    → i.pml4 < 512
    → i.pdpt < 512
    → i.pd < 512
    → i.pt < 512
    → address_to_pt (pt_to_address i.pml4 i.pdpt i.pd i.pt) ≡ i
unfolding address_to_pt
address_to_pt-pt_to_address i h4 h3 h2 h1 =
    ground (arith, pt_to_address_sum i.pml4 i.pdpt i.pd i.pt)

-- An address is rebuilt from its indices, less its page offset and the bits from 48 on.
pub pt_to_address-address_to_pt :
    (a : ℕ)
    → let i = address_to_pt a in pt_to_address i.pml4 i.pdpt i.pd i.pt + a % 2 ^ 12 ≡ a % 2 ^ 48
unfolding address_to_pt
pt_to_address-address_to_pt a = omega (arith, pt_to_address_sum)
