-- ===== src/Interrupt/Full.antt =====
-- A request for an interrupt that has all the handlers it can.
use dev_can_linux.Base.{
  ℕ, zero, suc, ◌+◌, ◌<◌, ◌≡◌, ◌≢◌, refl, sym, ap, ◌∙◌, subst, inl, inr, Option-cases, Bool, true,
  false, Option, none, some, List, [], ◌∷◌, ◌++◌, append_assoc, append-nil, length, length-append,
  get_elem?, get_elem?-middle, get_elem?-none, arith, ◌&&◌, if◌then◌else◌,
}
use dev_can_linux.Groups.{Group}
use dev_can_linux.Interrupt.{Handler, Attach, max_irq_attach_count, mask, is_message_signalled}
use dev_can_linux.Interrupt.Request.{
  found, add_handler, add_to_attached, attach_irq, attach_all, request_threaded_irq, masking_of,
}
use dev_can_linux.Interrupt.Loop.{
  Drivers, Config, Machine, log, run_handler, run_handlers, serve_entry, pulse, irq_round,
}

-- The entry once it has been counted up to the limit.
abbrev pub overcounted : Attach → Attach
overcounted a = record a { num_handlers = a.num_handlers + 1 }

add_to_attached-full :
    (h : Handler) (t : List Attach) (k : ℕ) (a : Attach)
    → get_elem? t k ≡ some a
    → ((j : ℕ) (b : Attach) → j < k → get_elem? t j ≡ some b → b.irq ≢ a.irq)
    → a.num_handlers ≡ 255
    → (u : List Attach) × (add_to_attached a.irq h t ≡ found false u)
      × (get_elem? u k ≡ some (overcounted a))
unfolding add_to_attached add_handler
add_to_attached-full h [] k a e first n = cc
add_to_attached-full h (b ∷ t) zero a e first n =
    let same : a ≡ b = cc in
    subst
      (λ x.
        (u : List Attach) × (add_to_attached a.irq h (x ∷ t) ≡ found false u)
        × (get_elem? u zero ≡ some (overcounted a)))
      same (overcounted a ∷ t, ground arith, refl)
add_to_attached-full h (b ∷ t) (suc k) a e first n =
    let other = first 0 b (omega arith) refl in
    let (u, f, g) = add_to_attached-full h t k a e (λ j c l. first (suc j) c (omega arith)) n in
    (b ∷ u, ground arith, g)

-- More handlers are counted than have been filled in.
run_handlers-none :
    (d : Drivers) (a : Attach) (pre hs : List Handler) (s : Machine)
    → a.handlers ≡ pre ++ hs
    → run_handlers d a (suc (length hs)) (length pre) s ≡ none
unfolding run_handlers
run_handlers-none d a pre [] s e =
    let whole : a.handlers ≡ pre = e ∙ append-nil pre in
    let beyond : get_elem? a.handlers (length pre) ≡ none =
      rw whole (get_elem?-none pre (length pre) (omega arith)) in
    ground arith
run_handlers-none d a pre (h ∷ hs) s e =
    let here : get_elem? a.handlers (length pre) ≡ some h = rw e (get_elem?-middle pre hs h) in
    elim (Option-cases (run_handler d a.irq h s)) [
      | inl n ↦ ground arith
      | inr (s', r) ↦
          let one_more : length (pre ++ (h ∷ [])) ≡ suc (length pre) =
            length-append pre (h ∷ []) ∙ omega arith in
          let rest =
            run_handlers-none d a (pre ++ (h ∷ [])) hs s'
              (e ∙ sym (append_assoc pre (h ∷ []) hs)) in
          let tail : run_handlers d a (suc (length hs)) (suc (length pre)) s' ≡ none =
            subst (λ j. run_handlers d a (suc (length hs)) j s' ≡ none) one_more rest in
          ground (arith, here, r, tail)
    ]

serve_entry-none :
    (d : Drivers) (c : Config) (k : ℕ) (a : Attach) (t : List Attach) (s : Machine)
    → a.num_handlers ≡ suc (length a.handlers)
    → serve_entry d c k a t s ≡ none
unfolding serve_entry
serve_entry-none d c k a t s n =
    let masks = if is_message_signalled a.masking && c.mask_pulse then mask k a.masking t else [] in
    let faults : run_handlers d a a.num_handlers 0 (log masks s) ≡ none =
      subst (λ j. run_handlers d a j 0 (log masks s) ≡ none) (sym n)
        (run_handlers-none d a [] a.handlers (log masks s) refl) in
    ground (arith, faults)

-- A request for an interrupt with 255 handlers, the first of its group, fails, and leaves the entry
-- such that the next pulse for it calls NULL.
pub request_threaded_irq-Full :
    (enabled : Bool) (attach : ℕ → Option ℕ) (g : Group) (h : Handler) (irqs : List ℕ)
    (t : List Attach) (k : ℕ) (a : Attach) (d : Drivers) (c : Config) (s : Machine)
    → g.irqs ≡ a.irq ∷ irqs
    → length t < max_irq_attach_count
    → get_elem? t k ≡ some a
    → ((j : ℕ) (b : Attach) → j < k → get_elem? t j ≡ some b → b.irq ≢ a.irq)
    → a.num_handlers ≡ 255
    → length a.handlers ≡ 255
    → let r = request_threaded_irq true enabled attach g h t in
      (r.goes ≡ false) × (irq_round d false c (pulse k) r.table s ≡ none)
unfolding request_threaded_irq attach_all attach_irq irq_round
request_threaded_irq-Full enabled attach g h irqs t k a d c s group room here first n l =
    let (u, adds, there) = add_to_attached-full h t k a here first n in
    let counted : (overcounted a).num_handlers ≡ suc (length a.handlers) = omega arith in
    let one : attach_irq attach g (masking_of enabled g) h 0 a.irq t
        ≡ record { goes = false; table = u; calls = [] } =
      ground arith in
    let r : attach_all attach g (masking_of enabled g) h 0 g.irqs t
        ≡ record { goes = false; table = u; calls = [] } =
      rw group (ground (arith, one)) in
    (
      ap (λ x. x.goes) r,
      subst (λ x. irq_round d false c (pulse k) x.table s ≡ none) (sym r)
          (ground (arith, there, serve_entry-none d c k (overcounted a) u s counted)),
    )
