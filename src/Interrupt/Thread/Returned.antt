-- ===== src/Interrupt/Thread/Returned.antt =====
-- `irq_loop` until `terminate_irq_loop` has been called.
use dev_can_linux.Base.{
  ℕ, ◌≡◌, refl, sym, ap, ◌∙◌, ap₂, Bool, true, false, ◌&&◌, some, List, [], ◌∷◌, ◌++◌, get_elem?,
  append_assoc, append-nil, if◌then◌else◌, inl, inr, Bool-cases, Option-cases,
}
use dev_can_linux.Interrupt.{Attach, IrqCall, is_message_signalled, mask, unmask}
use dev_can_linux.Interrupt.Loop.{
  Drivers, Machine, Config, pulse, deliver_interrupt, irq_handler, irq_round,
}
use dev_can_linux.Interrupt.Rounds.{Round, irq_round-Round}
use dev_can_linux.Interrupt.Thread.{
  Event, interrupt, terminate_irq_loop, receive, error, below_zero, IrqThread, interrupted,
  receive_round, thread_event, irq_event, irq_loop,
}
use dev_can_linux.Interrupt.Thread.Calls.{
  masks_as, unmasks_as, handlers_of, plain, mask-masks_as, unmask-unmasks_as, plain-append,
  plain-handlers, plain-masks_as, plain-unmasks_as,
}
use dev_can_linux.Interrupt.Thread.Expected.{
  isr_calls, round_calls, running_calls, ending_calls, IsReady, AllReady, AllRunning,
  AllReady-append, receives, running,
}

regroup :
    (xs ys zs ws : List IrqCall) {u : List IrqCall}
    → u ≡ xs ++ ys
    → u ++ (zs ++ ws) ≡ xs ++ ((ys ++ zs) ++ ws)
regroup xs ys zs ws e =
    ap (λ l. l ++ (zs ++ ws)) e
    ∙ append_assoc xs ys (zs ++ ws)
    ∙ ap (λ l. xs ++ l) (sym (append_assoc ys zs ws))

nested_if :
    (x b : Bool) (l : List IrqCall)
    → (if x && b then l else []) ≡ (if b then (if x then l else []) else [])
nested_if true true l = refl
nested_if true false l = refl
nested_if false true l = refl
nested_if false false l = refl

plain_if :
    (b : Bool) (l : List IrqCall)
    → plain l ≡ l
    → plain (if b then l else []) ≡ (if b then l else [])
plain_if true l e = e
plain_if false l e = refl

module _ (c : Config) (t : List Attach) (k : ℕ) (a : Attach) (here : get_elem? t k ≡ some a) where
  -- What is masked under an option.
  masks_if : (b : Bool) → List IrqCall
  masks_if b = if is_message_signalled a.masking && b then mask k a.masking t else []

  plain-masks_if : (b : Bool) → plain (masks_if b) ≡ (if b then masks_as a.masking a else [])
  unfolding masks_if
  plain-masks_if b =
      ap plain (
        nested_if (is_message_signalled a.masking) b (mask k a.masking t)
        ∙ ap (λ l. if b then l else []) (mask-masks_as k a t here a.masking))
      ∙ plain_if b (masks_as a.masking a) (plain-masks_as a.masking a)

  deliver_interrupt-masks_if :
      (s : Machine) → (deliver_interrupt c k a t s).calls ≡ s.calls ++ masks_if c.mask_isr
  unfolding deliver_interrupt irq_handler masks_if
  deliver_interrupt-masks_if s = elim (Bool-cases (is_message_signalled a.masking)) [
    | inl message ↦ elim (Bool-cases c.mask_isr) [
      | inl on ↦ rw (message, on) refl
      | inr off ↦ rw (message, off, append-nil) refl
    ]
    | inr regular ↦ rw (regular, append-nil) refl
  ]

module _ (d : Drivers) (c : Config) (t : List Attach) where
  plain-deliver :
      (k : ℕ) (a : Attach) (s : Machine)
      → get_elem? t k ≡ some a
      → plain (deliver_interrupt c k a t s).calls
        ≡ plain s.calls ++ (if c.mask_isr then masks_as a.masking a else [])
  plain-deliver k a s here =
      ap plain (deliver_interrupt-masks_if c t k a here s)
      ∙ plain-append s.calls (masks_if c t k a here c.mask_isr)
      ∙ ap (λ l. plain s.calls ++ l) (plain-masks_if c t k a here c.mask_isr)

  plain-interrupted :
      (k : ℕ) (s : Machine) → plain (interrupted d c t k s).calls ≡ plain s.calls ++ isr_calls c t k
  unfolding interrupted
  plain-interrupted k s = elim (Option-cases (get_elem? t k)) [
    | inl none_there ↦ rw (interrupted, isr_calls, none_there) (sym (append-nil (plain s.calls)))
    | inr (a, here) ↦ rw (interrupted, isr_calls, here) (plain-deliver k a s here)
  ]

  plain-round_calls :
      (k : ℕ) (a : Attach) (s u : Machine)
      → get_elem? t k ≡ some a
      → Round c k a t s u
      → plain u.calls ≡ plain s.calls ++ round_calls c t k
  unfolding masks_if
  plain-round_calls k a s u here r =
      let masks = masks_if c t k a here c.mask_pulse in
      let handled : plain r.extra ≡ handlers_of a =
        plain-handlers r.extra r.no_masks ∙ r.in_order in
      let unmasked : plain (unmask k a.masking t) ≡ unmasks_as a.masking a =
        ap plain (unmask-unmasks_as k a t here a.masking) ∙ plain-unmasks_as a.masking a in
      let tail : plain (r.extra ++ unmask k a.masking t) ≡ handlers_of a ++ unmasks_as a.masking a =
        plain-append r.extra (unmask k a.masking t) ∙ ap₂ (λ x y. x ++ y) handled unmasked in
      rw (round_calls, here)
        (ap plain r.calls
          ∙ plain-append s.calls (masks ++ (r.extra ++ unmask k a.masking t))
          ∙ ap (λ l. plain s.calls ++ l)
              (plain-append masks (r.extra ++ unmask k a.masking t)
                ∙ ap₂ (λ x y. x ++ y) (plain-masks_if c t k a here c.mask_pulse) tail))

  plain-round :
      (k : ℕ) (s : Machine)
      → IsReady d t k
      → (u : Machine) × (irq_round d false c (pulse k) t s ≡ some (true, u))
        × (plain u.calls ≡ plain s.calls ++ round_calls c t k)
  plain-round k s (a, here, filled, sessions) =
      let (u, e, r) = irq_round-Round d c k a t s here filled sessions in
      (u, e, plain-round_calls k a s u here r)

  -- The thread's calls have grown by these, and it ends.
  Ends : List Event → IrqThread → List IrqCall → Type 0
  Ends es s cs =
      (u : IrqThread) × (irq_loop d c t es s ≡ some u)
      × (u.returned ≡ true)
      × (plain u.machine.calls ≡ plain s.machine.calls ++ cs)

  irq_loop-finished :
      (ys : List Event) (m : Machine) (ps : List ℕ) (b : Bool)
      → Ends ys
          (record { machine = m; pulses = ps; shutdown = b; returned = true })
          (ending_calls c t ys)
  unfolding irq_loop irq_event Ends
  irq_loop-finished [] m ps b = (_, refl, refl, sym (append-nil (plain m.calls)))
  irq_loop-finished (interrupt k ∷ ys) m ps b =
      let (u, e, r, calls) = irq_loop-finished ys (interrupted d c t k m) (ps ++ (k ∷ [])) b in
      (
        u,
        e,
        r,
        calls
            ∙ ap (λ l. l ++ ending_calls c t ys) (plain-interrupted k m)
            ∙ append_assoc (plain m.calls) (isr_calls c t k) (ending_calls c t ys),
      )
  irq_loop-finished (terminate_irq_loop ∷ ys) m ps b = irq_loop-finished ys m (ps ++ (0 ∷ [])) true
  irq_loop-finished (receive ∷ ys) m ps b = irq_loop-finished ys m ps b
  irq_loop-finished (error ∷ ys) m ps b = irq_loop-finished ys m ps b
  irq_loop-finished (below_zero ∷ ys) m ps b = irq_loop-finished ys m ps b

  irq_loop-ending :
      (ys : List Event) (m : Machine) (p : ℕ) (ps : List ℕ)
      → receives ys ≡ true
      → Ends ys
          (record { machine = m; pulses = p ∷ ps; shutdown = true; returned = false })
          (ending_calls c t ys)
  unfolding irq_loop irq_event thread_event receive_round irq_round Ends
  irq_loop-ending [] m p ps r = absurd (cc)
  irq_loop-ending (interrupt k ∷ ys) m p ps r =
      let (u, e, r, calls) = irq_loop-ending ys (interrupted d c t k m) p (ps ++ (k ∷ [])) r in
      (
        u,
        e,
        r,
        calls
            ∙ ap (λ l. l ++ ending_calls c t ys) (plain-interrupted k m)
            ∙ append_assoc (plain m.calls) (isr_calls c t k) (ending_calls c t ys),
      )
  irq_loop-ending (terminate_irq_loop ∷ ys) m p ps r = irq_loop-ending ys m p (ps ++ (0 ∷ [])) r
  irq_loop-ending (receive ∷ ys) m p ps r = irq_loop-finished ys m ps true
  irq_loop-ending (error ∷ ys) m p ps r = irq_loop-finished ys m (p ∷ ps) true
  irq_loop-ending (below_zero ∷ ys) m p ps r = irq_loop-finished ys m (p ∷ ps) true

  irq_loop-receive :
      (xs : List Event) (m m' : Machine) (p : ℕ) (ps : List ℕ)
      → irq_round d false c (pulse p) t m ≡ some (true, m')
      → irq_loop d c t (receive ∷ xs) (running m (p ∷ ps)) ≡ irq_loop d c t xs (running m' ps)
  unfolding irq_loop irq_event thread_event receive_round
  irq_loop-receive xs m m' p ps e = rw (irq_loop, e) refl

  -- Until `terminate_irq_loop` is called, if the entries of the interrupts are filled in and their
  -- devices have sessions: an interrupt masks its entry, where that is configured for the service
  -- routine and the entry is signalled by message; each pulse is served once, in the order of the
  -- interrupts: the entry is masked where that is configured for pulses and it is signalled by
  -- message, all of its handlers are called once in their order, and it is unmasked. Once
  -- `terminate_irq_loop` has been called, the thread returns the next time that it comes back from
  -- MsgReceivePulse; the pulses that are queued by then are not served, so that their entries stay
  -- masked. The calls of `reset_interrupt` are left out of account.
  pub irq_loop-returned :
      (xs ys : List Event) (m : Machine) (ps : List ℕ)
      → AllReady d t ps
      → AllRunning d t xs
      → receives ys ≡ true
      → (u : IrqThread) × (irq_loop d c t (xs ++ (terminate_irq_loop ∷ ys)) (running m ps) ≡ some u)
        × (u.returned ≡ true)
        × (plain u.machine.calls
            ≡ plain m.calls ++ (running_calls c t xs ps ++ ending_calls c t ys))
  unfolding irq_loop irq_event thread_event receive_round irq_round Ends
  irq_loop-returned [] ys m [] rs al r = irq_loop-ending ys m 0 [] r
  irq_loop-returned [] ys m (p ∷ ps) rs al r = irq_loop-ending ys m p (ps ++ (0 ∷ [])) r
  irq_loop-returned (interrupt k ∷ xs) ys m ps rs (ready, al) r =
      let (u, e, r, calls) =
        irq_loop-returned xs ys (interrupted d c t k m) (ps ++ (k ∷ []))
          (AllReady-append d t ps k rs ready) al r in
      (u, e, r, calls ∙ regroup (plain m.calls) _ _ _ (plain-interrupted k m))
  irq_loop-returned (terminate_irq_loop ∷ xs) ys m ps rs al r = absurd al
  irq_loop-returned (receive ∷ xs) ys m [] rs al r = irq_loop-returned xs ys m [] rs al r
  irq_loop-returned (receive ∷ xs) ys m (p ∷ ps) (ready, rs) al r =
      let (m', served, grown) = plain-round p m ready in
      let (u, e, r, calls) = irq_loop-returned xs ys m' ps rs al r in
      (
        u,
        irq_loop-receive (xs ++ (terminate_irq_loop ∷ ys)) m m' p ps served ∙ e,
        r,
        calls ∙ regroup (plain m.calls) _ _ _ grown,
      )
  irq_loop-returned (error ∷ xs) ys m ps rs al r = irq_loop-returned xs ys m ps rs al r
  irq_loop-returned (below_zero ∷ xs) ys m ps rs al r = irq_loop-returned xs ys m ps rs al r
