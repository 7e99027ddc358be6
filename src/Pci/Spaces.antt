-- ===== src/Pci/Spaces.antt =====
-- The address spaces of the devices: the loop over the regions in `pci_enable_device` of src/pci.c,
-- and the test by which src/kernel/include/linux/io.h tells ports from memory.
pub mod Low
pub mod Split
use dev_can_linux.Base.{
  ℕ, zero, suc, ◌+◌, ◌-◌, Bool, true, false, not, ◌&&◌, ◌||◌, Option, none, some, List, [], ◌∷◌,
  ◌++◌, ltb, leb, ◌==◌, if◌then◌else◌,
}

-- `pci_asType_e`
pub data RegionType : Type 0 where
  io_region mem_region other_region : RegionType

-- `pci_ba_t`
pub record Region : Type 0 where
  pub addr : ℕ
  pub size : ℕ
  pub type : RegionType

-- A space of addresses from `begin` up to `end`; it is not set where one of them is zero.
pub record Space : Type 0 where
  pub begin : ℕ
  pub end : ℕ

-- `pci_io_addr_space_…`, `pci_mem_addr_space_…`, `io_port_addr_threshold` and the list `bar_list_root`.
pub record Spaces : Type 0 where
  pub io : Space
  pub mem : Space
  pub threshold : ℕ
  pub bars : List Region

unfoldable pub widen : (new_begin new_end : ℕ) → Space → Space
widen b e s = if (s.begin == 0) || (s.end == 0) then record { begin = b; end = e } else record {
  begin = if ltb b s.begin then b else s.begin;
  end = if ltb s.end e then e else s.end;
}

-- `pci_io_addr_space_end > pci_mem_addr_space_begin && …`
unfoldable pub spaces_clash : Spaces → Bool
spaces_clash s = ltb s.mem.begin s.io.end && not (s.io.end == 0) && not (s.mem.begin == 0)

-- The spaces with a region; `none` for a region of another type.
unfoldable pub track : Region → Spaces → Option Spaces
track r s = elim r.type [
  | io_region ↦ some (record s { io = widen r.addr (r.addr + r.size) s.io })
  | mem_region ↦ some (record s { mem = widen r.addr (r.addr + r.size) s.mem })
  | other_region ↦ none
]

-- A round of the loop: does it go on, or return PCI_ERR_ENOTSUP.
unfoldable pub add_region : Region → Spaces → Bool × Spaces
add_region r s =
    let t = record s { bars = s.bars ++ (r ∷ []) } in
    elim (track r t) [
      | none ↦ (false, t)
      | some u ↦ if spaces_clash u then (false, u) else (true, record u { threshold = u.io.end })
    ]

unfoldable pub add_regions : List Region → Spaces → Bool × Spaces
add_regions [] s = (true, s)
add_regions (r ∷ rs) s =
    let (goes, t) = add_region r s in
    let rest = add_regions rs t in if goes then rest else (false, t)

abbrev pub no_spaces : Spaces
no_spaces = record {
  io = record { begin = 0; end = 0 };
  mem = record { begin = 0; end = 0 };
  threshold = 0;
  bars = [];
}

-- `get_bar`: the first region with the address.
unfoldable pub get_bar : (addr : ℕ) → List Region → Option Region
get_bar addr [] = none
get_bar addr (r ∷ rs) =
    let rest = get_bar addr rs in
    if leb r.addr addr && ltb addr (r.addr + r.size) then some r else rest

-- `(uintptr_t)(addr + n - 1) < io_port_addr_threshold`, in the accesses of `n` bytes, on a pointer
-- to mapped ports or memory.
unfoldable pub is_port : (n addr threshold : ℕ) → Bool
is_port n addr threshold = ltb (addr + (n - 1)) threshold
