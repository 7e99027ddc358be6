-- ===== src/Interrupt/Attached.antt =====
-- A request attaches its handler to every interrupt of the group.
use dev_can_linux.Base.{
  ℕ, suc, ◌+◌, ◌≡◌, ◌≢◌, refl, sym, ap, ◌⊎◌, ◌∙◌, subst, inl, inr, Bool-cases, Bool, true, false,
  Option, none, some, List, [], ◌∷◌, ◌++◌, append-nil, length, length-append, arith, ◌==◌,
}
use dev_can_linux.Groups.{Group}
use dev_can_linux.Interrupt.{Handler, Attach, Masking, max_irq_attach_count}
use dev_can_linux.Interrupt.Request.{
  Search, not_attached, found, behind, Request, add_handler, add_to_attached, new_entry, attach_new,
  attach_irq, attach_all, masking_of, request_threaded_irq,
}
use dev_can_linux.Interrupt.Rounds.{IsFilled}
use dev_can_linux.Interrupt.Table.{
  Grows, keeps, Has, here, there, HasAll, AllFilled, Grows-refl, Grows-trans, Grows-append,
  Has-Grows, Has-end, AllFilled-append, one_more,
}

-- From table to table, with the handler at one interrupt more.
pub record Adds (irq : ℕ) (h : Handler) (t u : List Attach) : Type 0 where
  pub grows : Grows t u
  pub has : Has irq h u
  pub all_filled : AllFilled t → AllFilled u

pub behind-found :
    (a : Attach) (s : Search) (added : Bool) (u : List Attach)
    → behind a s ≡ found added u
    → (v : List Attach) × (s ≡ found added v) × (u ≡ a ∷ v)
behind-found a not_attached added u e = cc
behind-found a (found b v) added u e = (v, cc, cc)

pub Search-cases :
    (s : Search) → (s ≡ not_attached) ⊎ ((added : Bool) × (u : List Attach) × (s ≡ found added u))
Search-cases not_attached = inl refl
Search-cases (found added u) = inr (added, u, refl)

module _ (h : Handler) (h_not_null : h.function ≢ 0) where
  -- The entry that `add_handler` leaves where there is room.
  grown : Attach → Attach
  grown a = record a { num_handlers = a.num_handlers + 1; handlers = a.handlers ++ (h ∷ []) }

  add_handler-grown : (a b : Attach) → add_handler h a ≡ (true, b) → grown a ≡ b
  unfolding add_handler grown
  add_handler-grown a b e = ground arith

  grown-IsFilled : (a : Attach) → IsFilled a → IsFilled (grown a)
  unfolding grown
  grown-IsFilled a p = record {
    counted = rw (length-append a.handlers (h ∷ []), p.counted) refl;
    not_null = one_more a.handlers h h_not_null p.not_null;
  }

  Adds-here : (a : Attach) (t : List Attach) → Adds a.irq h (a ∷ t) (grown a ∷ t)
  unfolding grown
  Adds-here a t = record {
    grows = keeps (h ∷ []) refl refl (Grows-refl t);
    has = here a.handlers [] refl refl;
    all_filled = λ all. (grown-IsFilled a all.0, all.1);
  }

  Adds-there :
      {irq : ℕ} {t u : List Attach} (a : Attach) → Adds irq h t u → Adds irq h (a ∷ t) (a ∷ u)
  Adds-there a p = record {
    grows = keeps [] refl (sym (append-nil a.handlers)) p.grows;
    has = there p.has;
    all_filled = λ all. (all.0, p.all_filled all.1);
  }

  add_to_attached-Adds :
      (irq : ℕ) (t u : List Attach) → add_to_attached irq h t ≡ found true u → Adds irq h t u
  unfolding add_to_attached
  add_to_attached-Adds irq [] u e = cc
  add_to_attached-Adds irq (a ∷ t) u e = elim (Bool-cases (a.irq == irq)) [
    | inl same ↦
        let b : add_handler h a ≡ (true, (add_handler h a).1) = ground arith in
        let i : a.irq ≡ irq = ground arith in
        let v : (add_handler h a).1 ∷ t ≡ u = ground arith in
        subst (λ j. Adds j h (a ∷ t) u) i
          (subst (Adds a.irq h (a ∷ t)) (ap (λ x. x ∷ t) (add_handler-grown a _ b) ∙ v)
            (Adds-here a t))
    | inr other ↦
        let (v, rest, w) = behind-found a (add_to_attached irq h t) true u (ground arith) in
        subst (Adds irq h (a ∷ t)) (sym w) (Adds-there a (add_to_attached-Adds irq t v rest))
  ]

  module _ (attach : ℕ → Option ℕ) (g : Group) (m : Masking) where
    attach_new-Adds :
        (id : Option ℕ) (i irq : ℕ) (t : List Attach)
        → (attach_new id g m h i irq t).goes ≡ true
        → Adds irq h t (attach_new id g m h i irq t).table
    unfolding attach_new new_entry
    attach_new-Adds none i irq t e = cc
    attach_new-Adds (some id) i irq t e = record {
      grows = Grows-append t _;
      has = Has-end t _ h refl;
      all_filled = λ all.
          AllFilled-append t _ all
            (record { counted = refl; not_null = one_more [] h h_not_null (λ j k. cc) });
    }

    attach_irq-Adds :
        (i irq : ℕ) (t : List Attach)
        → (attach_irq attach g m h i irq t).goes ≡ true
        → Adds irq h t (attach_irq attach g m h i irq t).table
    unfolding attach_irq
    attach_irq-Adds i irq t e = elim (Bool-cases (length t == max_irq_attach_count)) [
      | inl full ↦ absurd (ground arith)
      | inr room ↦ elim (Search-cases (add_to_attached irq h t)) [
        | inl n ↦
            let new : attach_new (attach irq) g m h i irq t ≡ attach_irq attach g m h i irq t =
              rw (room, n) refl in
            subst Adding new (attach_new-Adds (attach irq) i irq t) e
        | inr (true, u, f) ↦
            let old : record { goes = true; table = u; calls = [] }
                ≡ attach_irq attach g m h i irq t =
              rw (room, f) refl in
            subst Adding old (λ goes. add_to_attached-Adds irq t u f) e
        | inr (false, u, f) ↦ absurd (ground arith)
      ]
    ]
      where
        Adding : Request → Type 0
        Adding r = r.goes ≡ true → Adds irq h t r.table

    -- What the loop over the interrupts `irqs` has come to.
    pub record Attaches (irqs : List ℕ) (t u : List Attach) : Type 0 where
      pub grows : Grows t u
      pub has_all : HasAll irqs h u
      pub all_filled : AllFilled t → AllFilled u

    attach_all-Attaches :
        (i : ℕ) (irqs : List ℕ) (t : List Attach)
        → (attach_all attach g m h i irqs t).goes ≡ true
        → Attaches irqs t (attach_all attach g m h i irqs t).table
    unfolding attach_all
    attach_all-Attaches i [] t e = record {
      grows = Grows-refl t;
      has_all = tt;
      all_filled = λ all. all;
    }
    attach_all-Attaches i (irq ∷ irqs) t e =
        elim (Bool-cases (attach_irq attach g m h i irq t).goes) [
          | inl goes ↦
              let u = (attach_irq attach g m h i irq t).table in
              let p = attach_irq-Adds i irq t goes in
              let q = attach_all-Attaches (suc i) irqs u (ground arith) in
              rw goes (record {
                grows = Grows-trans p.grows q.grows;
                has_all = (Has-Grows p.has q.grows, q.has_all);
                all_filled = λ all. q.all_filled (p.all_filled all);
              })
          | inr stops ↦ absurd (ground arith)
        ]

-- Where a request for a function that is not NULL returns 0, every interrupt of the group has the
-- handler, every entry of the table is as it was but for handlers behind its own, and if the entries
-- were filled in, they still are.
pub request_threaded_irq-HasAll :
    (sched enabled : Bool) (attach : ℕ → Option ℕ) (g : Group) (h : Handler) (t : List Attach)
    → h.function ≢ 0
    → AllFilled t
    → (request_threaded_irq sched enabled attach g h t).goes ≡ true
    → let u = (request_threaded_irq sched enabled attach g h t).table in
      Grows t u × HasAll g.irqs h u × AllFilled u
unfolding request_threaded_irq
request_threaded_irq-HasAll false enabled attach g h t ne all goes = cc
request_threaded_irq-HasAll true enabled attach g h t ne all goes =
    let p = attach_all-Attaches h ne attach g (masking_of enabled g) 0 g.irqs t goes in
    (p.grows, p.has_all, p.all_filled all)
