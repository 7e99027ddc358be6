-- ===== src/Groups/Add.antt =====
-- A group is added.
use dev_can_linux.Base.{
  ℕ, zero, suc, ◌+◌, ◌<◌, ◌≡◌, refl, sym, ap, ◌∙◌, subst, true, Option, none, some, List, [], ◌∷◌,
  ◌++◌, map, arith, length, get_elem?, ◌==◌, if◌then◌else◌, inl, inr, Bool-cases, length-append,
}
use dev_can_linux.Groups.{
  Group, Pointer, Groups, needed, enlarge, redirect, irq_to_group_add, irq_group_add,
}
use dev_can_linux.Groups.Live.{
  PointsInto, AllLive, lookup-AllLive, redirect-live, point_all-AllLive, enlarge-AllLive,
  moved-AllLive,
}
use dev_can_linux.Groups.Lookup.{
  lookup, member, lookup-enlarge, lookup-point_all, lookup-map, point_all-AllBelow,
}

-- The group that a pointer leads to: none, where it is NULL or does not point into the array.
abbrev pub target : Groups → Option Pointer → Option Group
target s none = none
target s (some p) = if p.block == s.block then get_elem? s.groups p.index else none

-- `irq_to_group_map[q]`
abbrev pub group_of : ℕ → Groups → Option Group
group_of q s = target s (lookup q s.map_to)

-- No pointer of the map dangles.
abbrev pub IsLive : Groups → Type 0
IsLive s = AllLive s.block (length s.groups) s.map_to

abbrev moved : ℕ → Groups → List (Option Pointer)
moved new s = map (redirect s.block (length s.groups) new) s.map_to

lookup-moved :
    (q new : ℕ) (s : Groups)
    → lookup q (moved new s) ≡ redirect s.block (length s.groups) new (lookup q s.map_to)
unfolding redirect
lookup-moved q new s = lookup-map q (redirect s.block (length s.groups) new) s.map_to refl

-- The pointers after the call.
lookup-add :
    (q new : ℕ) (g : Group) (s : Groups)
    → lookup q (irq_group_add new g s).map_to ≡ (
        if member q g.irqs
        then some (record { block = new; index = length s.groups })
        else redirect s.block (length s.groups) new (lookup q s.map_to))
unfolding irq_group_add irq_to_group_add
lookup-add q new g s =
    lookup-point_all q g.irqs (record { block = new; index = length s.groups })
      (enlarge (needed g.irqs) (moved new s)) (point_all-AllBelow g.irqs (moved new s))
    ∙ ap
        (λ u. if member q g.irqs then some (record { block = new; index = length s.groups }) else u)
        (lookup-enlarge q (needed g.irqs) (moved new s) ∙ lookup-moved q new s)

get_elem?-append_left :
    (gs : List Group) (g : Group) (i : ℕ)
    → i < length gs
    → get_elem? (gs ++ (g ∷ [])) i ≡ get_elem? gs i
get_elem?-append_left [] g i h = elim h [ ]
get_elem?-append_left (x ∷ gs) g zero h = refl
get_elem?-append_left (x ∷ gs) g (suc i) h = get_elem?-append_left gs g i (omega arith)

get_elem?-append_last :
    (gs : List Group) (g : Group) → get_elem? (gs ++ (g ∷ [])) (length gs) ≡ some g
get_elem?-append_last [] g = refl
get_elem?-append_last (x ∷ gs) g = get_elem?-append_last gs g

same_block : (n : ℕ) → (n == n) ≡ true
same_block n = ground arith

target-moved :
    (new : ℕ) (g : Group) (s : Groups) (o : Option Pointer)
    → PointsInto s.block (length s.groups) o
    → target (irq_group_add new g s) (redirect s.block (length s.groups) new o) ≡ target s o
unfolding irq_group_add irq_to_group_add redirect
target-moved new g s none h = refl
target-moved new g s (some p) (e, l) =
    let here : (p.block == s.block) ≡ true = ground arith in
    ap (target (irq_group_add new g s)) (redirect-live s.block (length s.groups) new p e l)
    ∙ rw (same_block new, here) (get_elem?-append_left s.groups g p.index l)

-- `irq_group_add`, which moves the groups to a new array: afterwards each interrupt of the new
-- group leads to it, and any other to the group it led to before.
pub group_of-irq_group_add :
    (new q : ℕ) (g : Group) (s : Groups)
    → IsLive s
    → group_of q (irq_group_add new g s) ≡ (if member q g.irqs then some g else group_of q s)
unfolding irq_group_add irq_to_group_add
group_of-irq_group_add new q g s h =
    ap (target (irq_group_add new g s)) (lookup-add q new g s)
    ∙ elim (Bool-cases (member q g.irqs)) [
      | inl t ↦ rw (t, same_block new) (get_elem?-append_last s.groups g)
      | inr f ↦ rw f (
          target-moved new g s (lookup q s.map_to)
            (lookup-AllLive s.block (length s.groups) q s.map_to h))
    ]

-- No pointer of the map dangles afterwards.
pub irq_group_add-IsLive :
    (new : ℕ) (g : Group) (s : Groups) → IsLive s → IsLive (irq_group_add new g s)
unfolding irq_group_add irq_to_group_add
irq_group_add-IsLive new g s h =
    let size = length s.groups in
    let more : length (s.groups ++ (g ∷ [])) ≡ size + 1 = length-append s.groups (g ∷ []) in
    subst (λ n. AllLive new n (irq_group_add new g s).map_to) (sym more)
      (point_all-AllLive new (size + 1) g.irqs (record { block = new; index = size }) _
        (refl, omega arith)
        (enlarge-AllLive new (size + 1) (needed g.irqs) _
          (moved-AllLive s.block size new s.map_to h)))
