-- ===== src/Interrupt/Bounds.antt =====
-- How large the table gets.
use dev_can_linux.Base.{
  ℕ, suc, ◌≤◌, ◌≡◌, ap, ◌∙◌, inl, inr, Bool-cases, Bool, true, false, Option, none, some, List, [],
  ◌∷◌, length, length-append, arith, ◌==◌,
}
use dev_can_linux.Groups.{Group}
use dev_can_linux.Interrupt.{Handler, Attach, Masking, max_irq_attach_count}
use dev_can_linux.Interrupt.Request.{
  found, add_to_attached, attach_new, attach_irq, attach_all, request_threaded_irq,
}
use dev_can_linux.Interrupt.Attached.{Search-cases, behind-found}

length-add_to_attached :
    (irq : ℕ) (h : Handler) (added : Bool) (t u : List Attach)
    → add_to_attached irq h t ≡ found added u
    → length u ≡ length t
unfolding add_to_attached
length-add_to_attached irq h added [] u e = cc
length-add_to_attached irq h added (a ∷ t) u e = elim (Bool-cases (a.irq == irq)) [
  | inl same ↦ ground arith
  | inr other ↦
      let (v, rest, w) = behind-found a (add_to_attached irq h t) added u (ground arith) in
      ap length w ∙ ap suc (length-add_to_attached irq h added t v rest)
]

module _ (attach : ℕ → Option ℕ) (g : Group) (m : Masking) (h : Handler) where
  length-attach_new :
      (id : Option ℕ) (i irq : ℕ) (t : List Attach)
      → length (attach_new id g m h i irq t).table ≡ suc (length t)
  unfolding attach_new
  length-attach_new none i irq t = length-append t _ ∙ omega arith
  length-attach_new (some id) i irq t = length-append t _ ∙ omega arith

  length-attach_irq :
      (i irq : ℕ) (t : List Attach)
      → length t ≤ max_irq_attach_count
      → length (attach_irq attach g m h i irq t).table ≤ max_irq_attach_count
  unfolding attach_irq
  length-attach_irq i irq t l = elim (Search-cases (add_to_attached irq h t)) [
    | inl n ↦ ground (arith, length-attach_new (attach irq) i irq t)
    | inr (added, u, f) ↦ ground (arith, length-add_to_attached irq h added t u f)
  ]

  length-attach_all :
      (i : ℕ) (irqs : List ℕ) (t : List Attach)
      → length t ≤ max_irq_attach_count
      → length (attach_all attach g m h i irqs t).table ≤ max_irq_attach_count
  unfolding attach_all
  length-attach_all i [] t l = l
  length-attach_all i (irq ∷ irqs) t l =
      let here = length-attach_irq i irq t l in
      ground (arith, length-attach_all (suc i) irqs (attach_irq attach g m h i irq t).table here)

-- Whatever a request returns, the table keeps within MAX_IRQ_ATTACH_COUNT, so that the index of an
-- entry fits the code of a pulse.
pub length-request_threaded_irq :
    (sched enabled : Bool) (attach : ℕ → Option ℕ) (g : Group) (h : Handler) (t : List Attach)
    → length t ≤ max_irq_attach_count
    → length (request_threaded_irq sched enabled attach g h t).table ≤ max_irq_attach_count
unfolding request_threaded_irq
length-request_threaded_irq false enabled attach g h t l = l
length-request_threaded_irq true enabled attach g h t l =
    length-attach_all attach g _ h 0 g.irqs t l
