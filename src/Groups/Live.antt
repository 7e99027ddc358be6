-- ===== src/Groups/Live.antt =====
-- Pointers that lead into an array of groups.
use dev_can_linux.Base.{
  ℕ, zero, suc, ◌+◌, ◌-◌, ◌<◌, ◌≡◌, refl, sym, subst, true, Option, none, some, List, [], ◌∷◌, ◌++◌,
  map, arith, length, replicate, set, ltb, ◌==◌, inl, inr, Bool-cases,
}
use dev_can_linux.Groups.{Pointer, enlarge, point_all, redirect}
use dev_can_linux.Groups.Lookup.{lookup}

-- NULL, or one of the `size` elements of the block.
abbrev pub PointsInto : (block size : ℕ) → Option Pointer → Type 0
PointsInto block size none = Unit {0}
PointsInto block size (some p) = (p.block ≡ block) × (p.index < size)

abbrev pub AllLive : (block size : ℕ) → List (Option Pointer) → Type 0
AllLive block size [] = Unit {0}
AllLive block size (e ∷ m) = PointsInto block size e × AllLive block size m

pub lookup-AllLive :
    (block size q : ℕ) (m : List (Option Pointer))
    → AllLive block size m
    → PointsInto block size (lookup q m)
unfolding lookup
lookup-AllLive block size q [] h = tt
lookup-AllLive block size zero (e ∷ m) (h, hs) = h
lookup-AllLive block size (suc q) (e ∷ m) (h, hs) = lookup-AllLive block size q m hs

pub redirect-live :
    (old size new : ℕ) (p : Pointer)
    → p.block ≡ old
    → p.index < size
    → redirect old size new (some p) ≡ some (record { block = new; index = p.index })
unfolding redirect
redirect-live old size new p e h =
    let same : (p.block == old) ≡ true = ground arith in
    let below : ltb p.index size ≡ true = ground arith in rw (same, below) refl

module _ (block size : ℕ) where
  set-AllLive :
      (q : ℕ) (e : Option Pointer) (m : List (Option Pointer))
      → PointsInto block size e
      → AllLive block size m
      → AllLive block size (set m q e)
  set-AllLive q e [] p h = tt
  set-AllLive zero e (x ∷ m) p (h, hs) = (p, hs)
  set-AllLive (suc q) e (x ∷ m) p (h, hs) = (h, set-AllLive q e m p hs)

  pub point_all-AllLive :
      (qs : List ℕ) (p : Pointer) (m : List (Option Pointer))
      → PointsInto block size (some p)
      → AllLive block size m
      → AllLive block size (point_all qs p m)
  unfolding point_all
  point_all-AllLive [] p m l h = h
  point_all-AllLive (q ∷ qs) p m l h =
      point_all-AllLive qs p (set m q (some p)) l (set-AllLive q (some p) m l h)

  append-AllLive :
      (n : ℕ) (m : List (Option Pointer))
      → AllLive block size m
      → AllLive block size (m ++ replicate n none)
  unfolding replicate
  append-AllLive zero [] h = tt
  append-AllLive (suc n) [] h = (tt, append-AllLive n [] tt)
  append-AllLive n (e ∷ m) (h, hs) = (h, append-AllLive n m hs)

  pub enlarge-AllLive :
      (n : ℕ) (m : List (Option Pointer)) → AllLive block size m → AllLive block size (enlarge n m)
  unfolding enlarge
  enlarge-AllLive n m h = elim (Bool-cases (ltb (length m) n)) [
    | inl small ↦ rw small (append-AllLive (n - length m) m h)
    | inr fits ↦ rw fits h
  ]

pub moved-AllLive :
    (old size new : ℕ) (m : List (Option Pointer))
    → AllLive old size m
    → AllLive new (size + 1) (map (redirect old size new) m)
unfolding redirect
moved-AllLive old size new [] h = tt
moved-AllLive old size new (none ∷ m) (h, hs) = (tt, moved-AllLive old size new m hs)
moved-AllLive old size new (some p ∷ m) ((e, l), hs) = (
  subst (PointsInto new (size + 1)) (sym (redirect-live old size new p e l)) (refl, omega arith),
  moved-AllLive old size new m hs,
)
