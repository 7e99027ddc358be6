-- ===== src/Options/Checks.antt =====
-- The ids of the options when the program runs.
use dev_can_linux.Base.{
  ℕ, zero, suc, ◌≤◌, ◌<◌, ◌≡◌, inl, inr, ◌⊎◌, true, Option, none, some, List, [], ◌∷◌, map,
  get_elem?, arith,
}
use dev_can_linux.Options.{Options, Start, ids_from, ids_below, starts}

ids_from-le :
    (next : ℕ) (ids : List (Option ℕ)) (k id : ℕ)
    → ids_from next ids ≡ true
    → get_elem? ids k ≡ some (some id)
    → next ≤ id
unfolding ids_from
ids_from-le next [] k id h g = cc
ids_from-le next (none ∷ ids) zero id h g = cc
ids_from-le next (some i ∷ ids) zero id h g = ground arith
ids_from-le next (none ∷ ids) (suc k) id h g = ids_from-le next ids k id h g
ids_from-le next (some i ∷ ids) (suc k) id h g = ids_from-le next ids k id (ground arith) g

ids_below-lt :
    (next : ℕ) (ids : List (Option ℕ)) (k id : ℕ)
    → ids_below next ids ≡ true
    → get_elem? ids k ≡ some (some id)
    → id < next
unfolding ids_below
ids_below-lt next [] k id h g = cc
ids_below-lt next (none ∷ ids) zero id h g = cc
ids_below-lt next (some i ∷ ids) zero id h g = ground arith
ids_below-lt next (none ∷ ids) (suc k) id h g = ids_below-lt next ids k id h g
ids_below-lt next (some i ∷ ids) (suc k) id h g = ids_below-lt next ids k id (ground arith) g

module _ (e : Start) (s : Options) (runs : starts e s ≡ true) where
  -- The tests that the program has passed when it runs.
  tested :
      let us = map (λ c. c.id) s.optu_config in
      let bs = map (λ c. c.id) s.optb_config in
      (ids_from s.next_device_id us ≡ true)
      × (ids_from s.next_device_id bs ≡ true)
      × (ids_below e.probed us ≡ true)
      × (ids_below e.probed bs ≡ true)
  unfolding starts
  tested = ground arith

  -- When the program runs, the id of every -u and of every -b is that of a device that has been
  -- probed: it is not below the number that -U sets, and below `next_device_id` behind the probe.
  pub starts-in_range :
      (k id : ℕ)
      → (get_elem? (map (λ c. c.id) s.optu_config) k ≡ some (some id))
        ⊎ (get_elem? (map (λ c. c.id) s.optb_config) k ≡ some (some id))
      → (s.next_device_id ≤ id) × (id < e.probed)
  starts-in_range k id (inl u) = (ids_from-le _ _ k id tested.0 u, ids_below-lt _ _ k id tested.2 u)
  starts-in_range k id (inr b) = (ids_from-le _ _ k id tested.1 b, ids_below-lt _ _ k id tested.3 b)
