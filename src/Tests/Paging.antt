-- ===== src/Tests/Paging.antt =====
-- Page-table indices of concrete addresses.
use hypervi.Base.{◌+◌, ◌%◌, ◌^◌, ◌≡◌, refl, arith}
use hypervi.Freestanding.Paging.{PtIndices, address_to_pt, pt_to_address}
use hypervi.Freestanding.Paging.Laws.{address_to_pt-pt_to_address, pt_to_address-address_to_pt}

abbrev indices : PtIndices
indices = record { pml4 = 1; pdpt = 2; pd = 3; pt = 511 }

built : pt_to_address 1 2 3 511 ≡ 0x80807ff000
unfolding pt_to_address
built = refl

address_to_pt-pt_to_address_example : address_to_pt (pt_to_address 1 2 3 511) ≡ indices
address_to_pt-pt_to_address_example =
    address_to_pt-pt_to_address indices (omega arith) (omega arith) (omega arith) (omega arith)

pt_to_address-address_to_pt_example :
    let i = address_to_pt 0x80807ff123 in
    pt_to_address i.pml4 i.pdpt i.pd i.pt + 0x80807ff123 % 2 ^ 12 ≡ 0x80807ff123
pt_to_address-address_to_pt_example = pt_to_address-address_to_pt 0x80807ff123
