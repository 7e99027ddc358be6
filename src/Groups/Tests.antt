-- ===== src/Groups/Tests.antt =====
-- A group of two interrupts is added to one of one.
use dev_can_linux.Base.{replicate, ℕ, ◌≡◌, refl, false, none, some, List, [], ◌∷◌, arith, length}
use dev_can_linux.Groups.{
  Group, Groups, irq_group_add, irq_to_group_add, redirect, enlarge, needed, point_all,
}
use dev_can_linux.Groups.Add.{IsLive}

abbrev group : List ℕ → Group
group irqs = record { irqs = irqs; hdl = 1; msi_cap = 0; is_msi = false; is_msix = false }

abbrev one_group : Groups
one_group = record {
  block = 100;
  groups = group (1 ∷ []) ∷ [];
  map_to = none ∷ some (record { block = 100; index = 0 }) ∷ [];
}

one_group-IsLive : IsLive one_group
one_group-IsLive = (tt, ((refl, omega arith), tt))

enlarged_map : length (irq_group_add 200 (group (2 ∷ 4 ∷ [])) one_group).map_to ≡ 5
unfolding irq_group_add irq_to_group_add redirect enlarge needed point_all replicate
enlarged_map = refl
