-- ===== src/Pci/Blocks/Tests.antt =====
-- A managed block of ports and one of memory that is not managed.
use dev_can_linux.Base.{ℕ, ◌≡◌, refl, true, false, Option, some, [], ◌∷◌, arith}
use dev_can_linux.Links.{write, store, get_last, last_from, link_behind}
use dev_can_linux.Links.Laws.{IsList}
use dev_can_linux.Pci.Spaces.{Region, io_region, mem_region, get_bar}
use dev_can_linux.Pci.Blocks.{
  Block, Blocks, munmap_device_memory, munmap_device_io, free_block, search_blocks, get_block,
  store_block, set_managed, unmap_block, pci_iounmap, map_device, map_block, pcim_iomap, ioremap,
  unmap_regions,
}
use dev_can_linux.Pci.Blocks.Mapped.{Mapped, pci_iounmap-pcim_iomap}
use dev_can_linux.Pci.Blocks.Released.{unmap_regions-releases}

abbrev ports : Region
ports = record { addr = 4096; size = 32; type = io_region }

abbrev memory : Region
memory = record { addr = 65536; size = 128; type = mem_region }

abbrev port_block : Block
port_block = record { addr = 4096; size = 32; region = ports; is_managed = true }

abbrev memory_block : Block
memory_block = record { addr = 90000; size = 128; region = memory; is_managed = false }

abbrev nowhere : ℕ → ℕ
nowhere i = 0

abbrev two_blocks : Blocks
two_blocks = record {
  links = record { root = 1; prev = write nowhere 2 1; next = write nowhere 1 2 };
  block = write (λ i. memory_block) 1 port_block;
  unmaps = [];
}

two_blocks-IsList : IsList two_blocks.links (1 ∷ 2 ∷ [])
two_blocks-IsList = record {
  distinct = ((omega arith, tt), (tt, tt));
  tail = 2;
  linked = (refl, omega arith, refl, (refl, omega arith, refl, (refl, refl)));
}

abbrev map_memory : (size addr : ℕ) → Option ℕ
map_memory size addr = some 70000

abbrev map_io : (size addr : ℕ) → Option ℕ
map_io size addr = some addr

unmap_regions-releases_example :
    (t : Blocks) × (unmap_regions 3 3 (ports ∷ memory ∷ []) two_blocks ≡ some t)
    × IsList t.links (2 ∷ [])
    × (t.unmaps ≡ munmap_device_io 4096 32 ∷ free_block 1 ∷ [])
unfolding unmap_block
unmap_regions-releases_example =
    unmap_regions-releases 3 3 (ports ∷ memory ∷ []) two_blocks (1 ∷ 2 ∷ []) two_blocks-IsList
      ((refl, tt), (tt, tt)) (omega arith) (omega arith)

pci_iounmap-pcim_iomap_example :
    (t : Blocks) × (u : Blocks) × (pcim_iomap map_memory map_io 4 3 false (memory ∷ []) 0 two_blocks
      ≡ some (70000, t))
    × Mapped two_blocks t
        (1 ∷ 2 ∷ [])
        3
        (record { addr = 70000; size = 128; region = memory; is_managed = true })
    × (pci_iounmap 4 70000 t ≡ some u)
    × IsList u.links (1 ∷ 2 ∷ [])
    × (u.unmaps ≡ munmap_device_memory 70000 128 ∷ free_block 3 ∷ [])
unfolding map_device unmap_block
pci_iounmap-pcim_iomap_example =
    pci_iounmap-pcim_iomap map_memory map_io 4 3 70000 false (memory ∷ []) 0 memory two_blocks
      (1 ∷ 2 ∷ []) refl refl (omega arith) (omega arith) (omega arith, (omega arith, tt))
      two_blocks-IsList (refl, (refl, tt)) (omega arith)

-- A second mapping of the same ports is at the same address: the flag that `ioremap` means to clear
-- is the first block's, and the new one keeps what `malloc` left there.
second_ports :
    (t : Blocks) × (ioremap map_memory map_io 4 3 true (ports ∷ []) 4096 32 two_blocks
      ≡ some (4096, t))
    × ((t.block 3).is_managed ≡ true)
    × ((t.block 1).is_managed ≡ false)
unfolding ioremap get_bar map_block map_device store_block store get_last last_from link_behind
    set_managed get_block search_blocks
second_ports = (_, refl, refl, refl)
