-- ===== src/Pci/Spaces/Split.antt =====
-- Ports lie below the threshold and memory does not.
use dev_can_linux.Base.{ℕ, ◌+◌, ◌≤◌, ◌<◌, ◌≡◌, Bool, true, false, Option, some, List, [], ◌∷◌}
use dev_can_linux.Pci.Spaces.{
  Region, RegionType, io_region, mem_region, other_region, Space, Spaces, spaces_clash,
}

-- The region is in the space, which is set.
pub record In (r : Region) (s : Space) : Type 0 where
  pub set : 0 < s.begin
  pub above : s.begin ≤ r.addr
  pub below : r.addr + r.size ≤ s.end

abbrev pub Fits : RegionType → Region → (io mem : Space) → Type 0
Fits io_region r io mem = In r io
Fits mem_region r io mem = In r mem
Fits other_region r io mem = ⊥

abbrev pub AllFit : List Region → (io mem : Space) → Type 0
AllFit [] io mem = Unit
AllFit (r ∷ rs) io mem = Fits r.type r io mem × AllFit rs io mem

-- Regions have an address that is not zero.
abbrev pub AllPlaced : List Region → Type 0
AllPlaced [] = Unit
AllPlaced (r ∷ rs) = (0 < r.addr) × AllPlaced rs

pub record IsSplit (s : Spaces) : Type 0 where
  pub fit : AllFit s.bars s.io s.mem
  pub apart : spaces_clash s ≡ false
  pub threshold : s.threshold ≡ s.io.end

abbrev pub is_io : RegionType → Bool
is_io io_region = true
is_io _ = false

-- What the code relies on of the functions of QNX that map a region: ports keep their address, and
-- memory is not mapped where the addresses of ports are.
abbrev pub KeepsPorts : ((size addr : ℕ) → Option ℕ) → Type 0
KeepsPorts f = (size addr p : ℕ) → f size addr ≡ some p → p ≡ addr

abbrev pub MapsHigh : ((size addr : ℕ) → Option ℕ) → Type 0
MapsHigh f = (size addr p : ℕ) → f size addr ≡ some p → 65536 ≤ p
