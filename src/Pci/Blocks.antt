-- ===== src/Pci/Blocks.antt =====
-- The mapped address spaces of the devices: `ioblock_t` of src/include/pci.h, the list of them, and
-- `pci_iomap`, `pcim_iomap`, `ioremap`, `pci_iounmap` of src/pci.c. The mutex of the list, which each
-- function takes and gives back on every path, is left out.
pub mod Laws
pub mod Unmapped
pub mod Released
pub mod Mapped
mod Tests
use dev_can_linux.Base.{
  ℕ, zero, suc, Bool, true, false, ◌&&◌, Option, none, some, List, [], ◌∷◌, ◌++◌, get_elem?, ◌==◌,
  if◌then◌else◌,
}
use dev_can_linux.Links.{Links, write, store}
use dev_can_linux.Pci.Spaces.{Region, RegionType, io_region, mem_region, other_region, get_bar}

-- `ioblock_t`, less its links
pub record Block : Type 0 where
  pub addr : ℕ
  pub size : ℕ
  pub region : Region
  pub is_managed : Bool

-- What is given back to the system.
pub data Unmap : Type 0 where
  munmap_device_memory munmap_device_io : (addr size : ℕ) → Unmap
  free_block : (block : ℕ) → Unmap

-- The blocks on the heap and the list of them, `ioblock_root`.
pub record Blocks : Type 0 where
  pub links : Links
  pub block : ℕ → Block
  pub unmaps : List Unmap

-- `while (location != NULL) { if (…) return location; location = location->next; }`, in at most
-- `fuel` rounds
unfoldable pub search_blocks : (fuel : ℕ) → (Block → Bool) → Blocks → ℕ → Option ℕ
search_blocks zero test s p = none
search_blocks (suc fuel) test s p =
    let rest = search_blocks fuel test s (s.links.next p) in
    if p == 0 then some 0 else if test (s.block p) then some p else rest

abbrev pub maps_at : (addr : ℕ) → Block → Bool
maps_at addr b = b.addr == addr

abbrev pub is_managed_at : (addr : ℕ) → Block → Bool
is_managed_at addr b = (b.region.addr == addr) && b.is_managed

unfoldable pub get_block : (fuel addr : ℕ) → Blocks → Option ℕ
get_block fuel addr s = search_blocks fuel (maps_at addr) s s.links.root

unfoldable pub get_managed_block : (fuel addr : ℕ) → Blocks → Option ℕ
get_managed_block fuel addr s = search_blocks fuel (is_managed_at addr) s s.links.root

-- `n` is the block that `malloc` returns, and `junk` what it holds at `is_managed`.
unfoldable pub store_block :
    (fuel n addr size : ℕ) → Region → (junk : Bool) → Blocks → Option Blocks
store_block fuel n addr size r junk s = elim (store fuel n s.links) [
  | none ↦ none
  | some l ↦ some (record s {
    links = l;
    block = write s.block n (record { addr = addr; size = size; region = r; is_managed = junk });
  })
]

-- The links of the others lead past the block.
unfoldable pub bypass : (n : ℕ) → Links → Links
bypass n l =
    let p = l.prev n in
    let q = l.next n in
    let after_root = record l { root = q } in
    let after_prev = record l { next = write l.next p q } in
    if p == 0
    then (if q == 0 then after_root else record after_root { prev = write l.prev q 0 })
    else (if q == 0 then after_prev else record after_prev { prev = write l.prev q p })

unfoldable pub take_out : (n : ℕ) → Links → Links
take_out n l = let m = bypass n l in record m { prev = write m.prev n 0; next = write m.next n 0 }

-- The block and the list without it; NULL if there is none at the address.
unfoldable pub remove_block : (fuel addr : ℕ) → Blocks → Option (ℕ × Blocks)
remove_block fuel addr s = elim (get_block fuel addr s) [
  | none ↦ none
  | some n ↦ if n == 0 then some (0, s) else some (n, record s { links = take_out n s.links })
]

-- What `munmap_device_memory` and `munmap_device_io` return is logged only.
unfoldable pub unmap_block : (n : ℕ) → Block → List Unmap
unmap_block n b = elim b.region.type [
  | io_region ↦ munmap_device_io b.addr b.size ∷ free_block n ∷ []
  | mem_region ↦ munmap_device_memory b.addr b.size ∷ free_block n ∷ []
  | other_region ↦ []
]

unfoldable pub pci_iounmap : (fuel addr : ℕ) → Blocks → Option Blocks
pci_iounmap fuel addr s = elim (remove_block fuel addr s) [
  | none ↦ none
  | some (n, t) ↦
      if n == 0 then some t else some (record t { unmaps = t.unmaps ++ unmap_block n (t.block n) })
]

-- `get_block(addr)->is_managed = v`; `none` through NULL.
unfoldable pub set_managed : (fuel addr : ℕ) (v : Bool) → Blocks → Option Blocks
set_managed fuel addr v s = elim (get_block fuel addr s) [
  | none ↦ none
  | some n ↦
      if n == 0
      then none
      else some (record s { block = write s.block n (record (s.block n) { is_managed = v }) })
]

-- The functions of QNX that map a region: `none` where they fail.
module _ (mmap_device_memory mmap_device_io : (size addr : ℕ) → Option ℕ) where
  unfoldable pub map_device : RegionType → (size addr : ℕ) → Option ℕ
  map_device io_region size addr = mmap_device_io size addr
  map_device mem_region size addr = mmap_device_memory size addr
  map_device other_region size addr = none

  -- `size` bytes from `offset` on, which are in the region: an address, or NULL for an error.
  unfoldable pub map_block :
      (fuel n : ℕ) (junk : Bool) → Region → (offset size : ℕ) → Blocks → Option (ℕ × Blocks)
  map_block fuel n junk r offset size s = elim (map_device r.type size offset) [
    | none ↦ some (0, s)
    | some p ↦ elim (store_block fuel n p size r junk s) [
      | none ↦ none
      | some t ↦ elim (set_managed fuel p false t) [ none ↦ none | some u ↦ some (p, u) ]
    ]
  ]

  -- `none` where `bar` is beyond the regions: the test logs it only.
  unfoldable pub pci_iomap :
      (fuel n : ℕ) (junk : Bool) (ba : List Region) (bar : ℕ) → Blocks → Option (ℕ × Blocks)
  pci_iomap fuel n junk ba bar s = elim (get_elem? ba bar) [
    | none ↦ none
    | some r ↦ map_block fuel n junk r r.addr r.size s
  ]

  unfoldable pub pcim_iomap :
      (fuel n : ℕ) (junk : Bool) (ba : List Region) (bar : ℕ) → Blocks → Option (ℕ × Blocks)
  pcim_iomap fuel n junk ba bar s = elim (pci_iomap fuel n junk ba bar s) [
    | none ↦ none
    | some (p, t) ↦
        if p == 0
        then some (0, t)
        else elim (set_managed fuel p true t) [ none ↦ none | some u ↦ some (p, u) ]
  ]

  unfoldable pub ioremap :
      (fuel n : ℕ) (junk : Bool) (bars : List Region) (offset size : ℕ)
      → Blocks
      → Option (ℕ × Blocks)
  ioremap fuel n junk bars offset size s = elim (get_bar offset bars) [
    | none ↦ some (0, s)
    | some r ↦ map_block fuel n junk r offset size s
  ]

-- The loop in `remove_all_driver_selections` for a region: while there is a managed block of it, it
-- is unmapped.
unfoldable pub unmap_managed : (rounds fuel addr : ℕ) → Blocks → Option Blocks
unmap_managed zero fuel addr s = none
unmap_managed (suc rounds) fuel addr s = elim (get_managed_block fuel addr s) [
  | none ↦ none
  | some n ↦ if n == 0 then some s else elim (pci_iounmap fuel (s.block n).addr s) [
    | none ↦ none
    | some t ↦ unmap_managed rounds fuel addr t
  ]
]

-- The loop for the regions of a device.
unfoldable pub unmap_regions : (rounds fuel : ℕ) → List Region → Blocks → Option Blocks
unmap_regions rounds fuel [] s = some s
unmap_regions rounds fuel (r ∷ rs) s = elim (unmap_managed rounds fuel r.addr s) [
  | none ↦ none
  | some t ↦ unmap_regions rounds fuel rs t
]
