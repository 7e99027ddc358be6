-- ===== src/Pci/Spaces/Low.antt =====
-- The threshold has 16 bits if the ports have.
use dev_can_linux.Base.{
  ℕ, ◌+◌, ◌≤◌, ◌≡◌, refl, subst, inl, inr, Option-cases, Bool-cases, some, List, [], ◌∷◌, ◌++◌,
  arith,
}
use dev_can_linux.Pci.Spaces.{
  Region, RegionType, io_region, mem_region, other_region, Space, Spaces, widen, spaces_clash,
  track, add_region, add_regions,
}

-- Ports have addresses of 16 bits.
abbrev pub IsLow : RegionType → Region → Type 0
IsLow io_region r = r.addr + r.size ≤ 65536
IsLow _ r = Unit {0}

abbrev pub AllLow : List Region → Type 0
AllLow [] = Unit {0}
AllLow (r ∷ rs) = IsLow r.type r × AllLow rs

-- So the threshold is no higher.
abbrev pub LowSpaces : Spaces → Type 0
LowSpaces s = (s.io.end ≤ 65536) × (s.threshold ≤ 65536)

widen-low : (b e : ℕ) (s : Space) → e ≤ 65536 → s.end ≤ 65536 → (widen b e s).end ≤ 65536
unfolding widen
widen-low b e s l m = ground (arith, l, m)

track-low :
    (r : Region) (t : RegionType) (s u : Spaces)
    → r.type ≡ t
    → IsLow t r
    → LowSpaces s
    → track r s ≡ some u
    → LowSpaces u
unfolding track
track-low r io_region s u e l (end, low) h =
    let same : record s { io = widen r.addr (r.addr + r.size) s.io } ≡ u = ground arith in
    subst LowSpaces same (widen-low r.addr (r.addr + r.size) s.io l end, low)
track-low r mem_region s u e l (end, low) h =
    let same : record s { mem = widen r.addr (r.addr + r.size) s.mem } ≡ u = ground arith in
    subst LowSpaces same (end, low)
track-low r other_region s u e l low h = absurd (ground arith)

add_region-low :
    (r : Region) (s : Spaces) → IsLow r.type r → LowSpaces s → LowSpaces (add_region r s).1
unfolding add_region
add_region-low r s l low = elim (Option-cases (track r (record s { bars = s.bars ++ (r ∷ []) }))) [
  | inl n ↦ rw (add_region, n) low
  | inr (u, t) ↦
      let (end, kept) =
        track-low r r.type (record s { bars = s.bars ++ (r ∷ []) }) u refl l low t in
      elim (Bool-cases (spaces_clash u)) [
        | inl c ↦ rw (add_region, t, c) (end, kept)
        | inr apart ↦ rw (add_region, t, apart) (end, end)
      ]
]

pub add_regions-low :
    (rs : List Region) (s : Spaces) → AllLow rs → LowSpaces s → LowSpaces (add_regions rs s).1
unfolding add_regions
add_regions-low [] s l low = low
add_regions-low (r ∷ rs) s (l, ls) low = elim (Bool-cases (add_region r s).0) [
  | inl goes ↦
      rw (add_regions, goes) (add_regions-low rs (add_region r s).1 ls (add_region-low r s l low))
  | inr stops ↦ rw (add_regions, stops) (add_region-low r s l low)
]
