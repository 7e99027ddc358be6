-- ===== src/Groups.antt =====
-- The groups of interrupts of src/config.c: the interrupts of a device, and a map from each
-- interrupt to the group it is in.
pub mod Lookup
pub mod Live
pub mod Add
mod Tests
use dev_can_linux.Base.{
  ℕ, zero, suc, ◌+◌, ◌-◌, Bool, true, false, ◌&&◌, Option, none, some, List, [], ◌∷◌, ◌++◌, map,
  length, get_elem?, set, replicate, ltb, ◌==◌, if◌then◌else◌,
}

-- `irq_group_t`
pub record Group : Type 0 where
  pub irqs : List ℕ
  pub hdl : ℕ
  pub msi_cap : ℕ
  pub is_msi : Bool
  pub is_msix : Bool

-- A pointer into an array of groups: the block that `malloc` returned, and the index.
pub record Pointer : Type 0 where
  pub block : ℕ
  pub index : ℕ

-- `irq_group`, `irq_group_size`, `irq_to_group_map` and `irq_to_group_map_size`. An entry that is
-- NULL is `none`.
pub record Groups : Type 0 where
  pub block : ℕ
  pub groups : List Group
  pub map_to : List (Option Pointer)

-- `new_irq_to_group_map_size`
unfoldable pub needed : List ℕ → ℕ
needed [] = 0
needed (q ∷ qs) = let rest = needed qs in if ltb rest (q + 1) then q + 1 else rest

-- The map, enlarged with NULL where it is too small.
unfoldable pub enlarge : ℕ → List (Option Pointer) → List (Option Pointer)
enlarge n m = if ltb (length m) n then m ++ replicate (n - length m) none else m

-- `for (i = 0; i < nirq; ++i) irq_to_group_map[irq[i]] = …`
unfoldable pub point_all : List ℕ → Pointer → List (Option Pointer) → List (Option Pointer)
point_all [] p m = m
point_all (q ∷ qs) p m = point_all qs p (set m q (some p))

-- `irq_to_group_add`
unfoldable pub irq_to_group_add : (irqs : List ℕ) (group_id : ℕ) → Groups → Groups
irq_to_group_add irqs id s = record s {
  map_to = point_all irqs (record { block = s.block; index = id }) (enlarge (needed irqs) s.map_to);
}

-- A pointer into the old array is redirected to the same place in the new one.
unfoldable pub redirect : (old size new : ℕ) → Option Pointer → Option Pointer
redirect old size new none = none
redirect old size new (some p) =
    if (p.block == old) && ltb p.index size
    then some (record { block = new; index = p.index })
    else some p

-- `irq_group_add`. `new` is the block that `malloc` returns for the array.
unfoldable pub irq_group_add : (new : ℕ) → Group → Groups → Groups
irq_group_add new g s = irq_to_group_add g.irqs (length s.groups) (record {
  block = new;
  groups = s.groups ++ (g ∷ []);
  map_to = map (redirect s.block (length s.groups) new) s.map_to;
})
