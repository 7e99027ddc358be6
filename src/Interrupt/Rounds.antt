-- ===== src/Interrupt/Rounds.antt =====
-- What a round of `irq_loop` does for an entry of the table.
use dev_can_linux.Base.{
  ℕ, suc, ◌≡◌, ◌≢◌, refl, sym, ap, ◌∙◌, subst, inl, inr, Bool-cases, true, false, ◌&&◌, some, List,
  [], ◌∷◌, ◌++◌, map, append_assoc, append-nil, length, length-append, take, get_elem?,
  get_elem?-middle, arith, ◌==◌, if◌then◌else◌,
}
use dev_can_linux.Queue.{Queue}
use dev_can_linux.Interrupt.{
  Handler, Attach, IrqCall, handler_call, reset_call, mask, unmask, is_message_signalled,
}
use dev_can_linux.Interrupt.Loop.{
  Drivers, Machine, Config, log, irq_none, irq_handled, irq_wake_thread, Irqreturn, after_handler,
  run_handler, run_handlers, wake_devices, serve_entry, pulse, irq_round,
}
use dev_can_linux.Interrupt.Pulse.{serves, wake_queues_lem}

-- The calls of handlers among some calls, and the others that are not of `reset_interrupt`.
abbrev pub handler_calls : List IrqCall → List IrqCall
handler_calls [] = []
handler_calls (handler_call f irq dev ∷ cs) = handler_call f irq dev ∷ handler_calls cs
handler_calls (_ ∷ cs) = handler_calls cs

abbrev pub masking_calls : List IrqCall → List IrqCall
masking_calls [] = []
masking_calls (handler_call f irq dev ∷ cs) = masking_calls cs
masking_calls (reset_call f irq dev ∷ cs) = masking_calls cs
masking_calls (c ∷ cs) = c ∷ masking_calls cs

-- Each element that is counted has been filled in, and is not NULL.
pub record IsFilled (a : Attach) : Type 0 where
  pub counted : a.num_handlers ≡ length a.handlers
  pub not_null : (i : ℕ) (h : Handler) → get_elem? a.handlers i ≡ some h → h.function ≢ 0

-- The handlers have been called in their order, and nothing has been masked or unmasked.
pub record Ran (irq : ℕ) (hs : List Handler) (s s' : Machine) : Type 0 where
  pub extra : List IrqCall
  pub calls : s'.calls ≡ s.calls ++ extra
  pub in_order : handler_calls extra ≡ map (λ h. handler_call h.function irq h.dev) hs
  pub no_masks : masking_calls extra ≡ []

take_all : {A : Type 0} (xs : List A) → take (length xs) xs ≡ xs
take_all [] = refl
take_all (x ∷ xs) = ap (◌∷◌ x) (take_all xs)

map-append : {A B : Type 0} (f : A → B) (xs ys : List A) → map f (xs ++ ys) ≡ map f xs ++ map f ys
map-append f [] ys = refl
map-append f (x ∷ xs) ys = ap (◌∷◌ (f x)) (map-append f xs ys)

handler_calls-append :
    (cs es : List IrqCall) → handler_calls (cs ++ es) ≡ handler_calls cs ++ handler_calls es
handler_calls-append [] es = refl
handler_calls-append (c ∷ cs) es = ground (arith, handler_calls-append cs es)

masking_calls-append :
    (cs es : List IrqCall) → masking_calls (cs ++ es) ≡ masking_calls cs ++ masking_calls es
masking_calls-append [] es = refl
masking_calls-append (c ∷ cs) es = ground (arith, masking_calls-append cs es)

-- A round for an entry: what is masked on the pulse is masked before the handlers run, which are all
-- called once, in order and whatever the others returned; the entry is unmasked behind them, and no
-- transmit queue of the devices is left to be woken.
pub record Round (c : Config) (k : ℕ) (a : Attach) (t : List Attach) (s s' : Machine) : Type 0 where
  pub extra : List IrqCall
  pub calls :
      s'.calls
      ≡ s.calls
        ++ ((if is_message_signalled a.masking && c.mask_pulse then mask k a.masking t else [])
            ++ (extra ++ unmask k a.masking t))
  pub in_order : handler_calls extra ≡ map (λ h. handler_call h.function a.irq h.dev) a.handlers
  pub no_masks : masking_calls extra ≡ []
  pub awake : (dev : ℕ) → serves dev a.handlers ≡ true → (s'.tx_queue dev).wake_pending ≡ false

module _ (d : Drivers) where
  -- The machine once the handler has returned.
  called : (irq : ℕ) → Handler → (ℕ → Queue) → Machine → Machine
  called irq h tx s = record {
    tx_queue = tx;
    calls = s.calls ++ (handler_call h.function irq h.dev ∷ []);
  }

  after_handler-Ran :
      (irq : ℕ) (h : Handler) (err : Irqreturn) (tx : ℕ → Queue) (s : Machine)
      → Ran irq (h ∷ []) s (after_handler d irq h err (called irq h tx s))
  unfolding after_handler called
  after_handler-Ran irq h irq_none tx s = record {
    extra = _;
    calls = refl;
    in_order = refl;
    no_masks = refl;
  }
  after_handler-Ran irq h irq_handled tx s = record {
    extra = _;
    calls = refl;
    in_order = refl;
    no_masks = refl;
  }
  after_handler-Ran irq h irq_wake_thread tx s = elim (Bool-cases (h.reset_interrupt == 0)) [
    | inl t ↦ rw t (record { extra = _; calls = refl; in_order = refl; no_masks = refl })
    | inr f ↦ rw f (record {
      extra = handler_call h.function irq h.dev ∷ reset_call h.reset_interrupt irq h.dev ∷ [];
      calls = rw append_assoc refl;
      in_order = refl;
      no_masks = refl;
    })
  ]

  run_handler-Ran :
      (irq : ℕ) (h : Handler) (s : Machine)
      → h.function ≢ 0
      → (s' : Machine) × (run_handler d irq h s ≡ some s') × Ran irq (h ∷ []) s s'
  unfolding run_handler called
  run_handler-Ran irq h s ne =
      let (tx, err) = d.handles h.function irq h.dev s.tx_queue in
      (_, ground arith, after_handler-Ran irq h err tx s)

  Ran-append :
      {irq : ℕ} {hs ks : List Handler} {s t u : Machine}
      → Ran irq hs s t
      → Ran irq ks t u
      → Ran irq (hs ++ ks) s u
  Ran-append {hs = hs} {ks = ks} {s = s} p q = record {
    extra = p.extra ++ q.extra;
    calls = q.calls ∙ ap (λ cs. cs ++ q.extra) p.calls ∙ append_assoc s.calls p.extra q.extra;
    in_order =
        rw (handler_calls-append p.extra q.extra, p.in_order, q.in_order)
          (sym (map-append _ hs ks));
    no_masks = rw (masking_calls-append p.extra q.extra, p.no_masks) q.no_masks;
  }

  run_handlers-Ran :
      (a : Attach) (pre hs : List Handler) (s : Machine)
      → a.handlers ≡ pre ++ hs
      → ((i : ℕ) (h : Handler) → get_elem? a.handlers i ≡ some h → h.function ≢ 0)
      → (s' : Machine) × (run_handlers d a (length hs) (length pre) s ≡ some s') × Ran a.irq hs s s'
  unfolding run_handlers
  run_handlers-Ran a pre [] s e ne = (
    s,
    refl,
    record { extra = []; calls = sym (append-nil s.calls); in_order = refl; no_masks = refl },
  )
  run_handlers-Ran a pre (h ∷ hs) s e ne =
      let here : get_elem? a.handlers (length pre) ≡ some h = rw e (get_elem?-middle pre hs h) in
      let (s', one, ran) = run_handler-Ran a.irq h s (ne _ h here) in
      let (s'', more, ran') =
        run_handlers-Ran a (pre ++ (h ∷ [])) hs s' (e ∙ sym (append_assoc pre (h ∷ []) hs)) ne in
      let one_more : length (pre ++ (h ∷ [])) ≡ suc (length pre) =
        length-append pre (h ∷ []) ∙ omega arith in
      let rest = subst (λ j. run_handlers d a (length hs) j s' ≡ some s'') one_more more in
      (s'', ground (arith, rest), Ran-append ran ran')

  -- A pulse of an entry whose handlers have been filled in, and whose devices have sessions.
  pub irq_round-Round :
      (c : Config) (k : ℕ) (a : Attach) (t : List Attach) (s : Machine)
      → get_elem? t k ≡ some a
      → IsFilled a
      → ((dev : ℕ) → serves dev a.handlers ≡ true → d.session dev ≢ 0)
      → (s' : Machine) × (irq_round d false c (pulse k) t s ≡ some (true, s')) × Round c k a t s s'
  unfolding irq_round serve_entry wake_devices
  irq_round-Round c k a t s here filled sessions =
      let masks =
        if is_message_signalled a.masking && c.mask_pulse then mask k a.masking t else [] in
      let (s', runs, ran) = run_handlers-Ran a [] a.handlers (log masks s) refl filled.not_null in
      let (tx, wakes, queues) = wake_queues_lem d a.handlers s'.tx_queue sessions in
      let whole : take a.num_handlers a.handlers ≡ a.handlers =
        rw (filled.counted) (take_all a.handlers) in
      (
        record { tx_queue = tx; calls = s'.calls ++ unmask k a.masking t },
        ground arith,
        record {
          extra = ran.extra;
          calls =
              ap (λ cs. cs ++ unmask k a.masking t) ran.calls
              ∙ append_assoc (s.calls ++ masks) ran.extra (unmask k a.masking t)
              ∙ append_assoc s.calls masks (ran.extra ++ unmask k a.masking t);
          in_order = ran.in_order;
          no_masks = ran.no_masks;
          awake = λ dev served. ground (arith, queues dev);
        },
      )
